-- ===== src/Message/Typed/Commands.antt =====
-- The commands keep to the ranges of their C++ types, in both directions.
use protocol_tn.Base.{
  ℕ, ◌<◌, Bool, true, false, not, List, [], ◌∷◌, Bytes, IsByte, IsBytes, All, All-drop, is_empty,
  length, drop, get_or, ltb, ◌==◌, if◌then◌else◌, arith,
}
use protocol_tn.Message.Result.{Result, ok, err}
use protocol_tn.Message.Order.{Order, unmarshal_orders}
use protocol_tn.Message.Command.ClearScreen
use protocol_tn.Message.Command.ReadMdtFields
use protocol_tn.Message.Command.WriteToDisplay
use protocol_tn.Message.Command.WriteToDisplay.{WriteToDisplay, some_orders, with_orders}
use protocol_tn.Message.Command.Code.{escape, clear_unit, write_to_display, read_mdt_fields}
use protocol_tn.Message.Command.{
  Command, cs, wtd, rmf, as_command, unmarshal_command, marshal_command, default_command,
}
use protocol_tn.Message.Typed.Orders.{
  OnOk, byte_at, OrderFits, unmarshal_orders-OrderFits, marshal_orders-IsBytes,
}

abbrev pub CommandFits : Command → Type 0
CommandFits (cs c) = (c.code < 256) × All OrderFits c.orders
CommandFits (wtd c) = IsBytes (c.code ∷ c.control1 ∷ c.control2 ∷ []) × All OrderFits c.orders
CommandFits (rmf c) = IsBytes (c.code ∷ c.control1 ∷ c.control2 ∷ []) × All OrderFits c.orders

abbrev pub Reads : Result (Command × ℕ) → Type 0
Reads = OnOk (λ r. CommandFits r.0)

clear_fits : (bs : Bytes) → IsBytes bs → Reads (as_command cs (ClearScreen.unmarshal bs))
unfolding ClearScreen.unmarshal
clear_fits bs h = ground (arith, byte_at bs 1 h)

read_fields_fit : (bs : Bytes) → IsBytes bs → Reads (as_command rmf (ReadMdtFields.unmarshal bs))
unfolding ReadMdtFields.unmarshal
read_fields_fit bs h = ground (arith, byte_at bs 1 h, byte_at bs 2 h, byte_at bs 3 h)

pub picked :
    {A : Type 0} (P : A → Type 0) (c : Bool) (x y : Result A)
    → OnOk P x
    → OnOk P y
    → OnOk P (if c then x else y)
picked P true x y h k = h
picked P false x y h k = k

abbrev DisplayFits : WriteToDisplay × ℕ → Type 0
DisplayFits r = CommandFits (wtd r.0)

display_orders_fit :
    (command : List Order → WriteToDisplay) (n : ℕ) (r : Result (List Order))
    → ((os : List Order) → All OrderFits os → CommandFits (wtd (command os)))
    → OnOk (All OrderFits) r
    → OnOk DisplayFits (with_orders command n (some_orders r))
display_orders_fit command n (ok []) k h = tt
display_orders_fit command n (ok (o ∷ os)) k h = k (o ∷ os) h
display_orders_fit command n (err e) k h = tt

unmarshal-DisplayFits : (bs : Bytes) → IsBytes bs → OnOk DisplayFits (WriteToDisplay.unmarshal bs)
unfolding WriteToDisplay.unmarshal
unmarshal-DisplayFits bs h =
    let bytes : IsBytes (get_or bs 1 0 ∷ get_or bs 2 0 ∷ get_or bs 3 0 ∷ []) =
      (byte_at bs 1 h, (byte_at bs 2 h, (byte_at bs 3 h, tt))) in
    picked DisplayFits (ltb (length bs) 4) _ _ tt (
      picked DisplayFits (not (get_or bs 0 0 == escape)) _ _ tt (
        picked DisplayFits (not (get_or bs 1 0 == write_to_display)) _ _ tt (
          picked DisplayFits (is_empty (drop 4 bs)) _ _ (bytes, tt)
            (display_orders_fit _ _ (unmarshal_orders (drop 4 bs)) (λ os v. (bytes, v))
              (unmarshal_orders-OrderFits (drop 4 bs) (All-drop IsByte 4 bs h))))))

as_command-DisplayFits :
    (r : Result (WriteToDisplay × ℕ)) → OnOk DisplayFits r → Reads (as_command wtd r)
as_command-DisplayFits (ok p) h = h
as_command-DisplayFits (err e) h = tt

abbrev ReadFits : Command × ℕ → Type 0
ReadFits r = CommandFits r.0

pub unmarshal_command-CommandFits : (bs : Bytes) → IsBytes bs → Reads (unmarshal_command bs)
unfolding unmarshal_command
unmarshal_command-CommandFits bs h =
    let other : Reads (ok (default_command, length bs)) = (omega arith, tt) in
    picked ReadFits (ltb (length bs) 2) _ _ tt (
      picked ReadFits (not (get_or bs 0 0 == escape)) _ _ tt (
        picked ReadFits (get_or bs 1 0 == clear_unit) _ _ (clear_fits bs h) (
          picked ReadFits (get_or bs 1 0 == write_to_display) _ _
            (as_command-DisplayFits (WriteToDisplay.unmarshal bs) (unmarshal-DisplayFits bs h))
            (picked ReadFits (get_or bs 1 0 == read_mdt_fields) _ _ (read_fields_fit bs h) other))))

pub marshal_command-IsBytes : (c : Command) → CommandFits c → IsBytes (marshal_command c)
unfolding WriteToDisplay.marshal
marshal_command-IsBytes (cs c) h = (omega arith, (omega arith, tt))
marshal_command-IsBytes (wtd c) ((h, (k, (l, m))), os) =
    (omega arith, (omega arith, (k, (l, marshal_orders-IsBytes c.orders os))))
marshal_command-IsBytes (rmf c) ((h, (k, (l, m))), os) = (omega arith, (omega arith, (k, (l, tt))))
