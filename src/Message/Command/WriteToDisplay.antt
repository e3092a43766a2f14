-- ===== src/Message/Command/WriteToDisplay.antt =====
-- commands/command_wtd_write_to_display.h and .cpp under tn5250/message/command.
use protocol_tn.Base.{
  ℕ, ◌+◌, Bool, not, ◌&&◌, List, [], ◌∷◌, Bytes, is_empty, length, drop, get_or, ltb, ◌==◌,
  if◌then◌else◌,
}
use protocol_tn.Message.Result.{
  Result, ok, err, unset, control_bytes_missing, no_escape, wrong_command_code,
}
use protocol_tn.Message.Order.{Order, unmarshal_orders, marshal_orders}
use protocol_tn.Message.Command.Code.{escape, write_to_display}

pub record WriteToDisplay : Type 0 where
  pub code : ℕ
  pub orders : List Order
  pub control1 : ℕ
  pub control2 : ℕ

-- No orders out of a data that is there is a failure, also where no order has set an error.
abbrev pub some_orders : Result (List Order) → Result (List Order)
some_orders (ok []) = err unset
some_orders (ok (o ∷ os)) = ok (o ∷ os)
some_orders (err e) = err e

abbrev pub with_orders :
    (List Order → WriteToDisplay) → ℕ → Result (List Order) → Result (WriteToDisplay × ℕ)
with_orders command n (ok os) = ok (command os, n)
with_orders command n (err e) = err e

-- All that is behind the control bytes is the orders.
unfoldable pub unmarshal : Bytes → Result (WriteToDisplay × ℕ)
unmarshal buffer =
    let command : List Order → WriteToDisplay = λ os. record {
      code = get_or buffer 1 0;
      orders = os;
      control1 = get_or buffer 2 0;
      control2 = get_or buffer 3 0;
    } in
    let sub = drop 4 buffer in
    if ltb (length buffer) 4
    then err control_bytes_missing
    else if not (get_or buffer 0 0 == escape)
    then err no_escape
    else if not (get_or buffer 1 0 == write_to_display)
    then err (wrong_command_code write_to_display)
    else if is_empty sub
    then ok (command [], 4)
    else with_orders command (4 + length sub) (some_orders (unmarshal_orders sub))

-- `pending` is whether the caller's error has a text already: the orders never set one.
unfoldable pub marshal : Bool → WriteToDisplay → Bytes
marshal pending c =
    if pending && not (is_empty c.orders)
    then []
    else escape ∷ write_to_display ∷ c.control1 ∷ c.control2 ∷ marshal_orders c.orders
