-- ===== src/Message/Order.antt =====
-- tn5250/message/command/order: the display orders of a command as objects, and their dispatch.
pub mod Code
pub mod InsertCursor
pub mod RepeatToAddress
pub mod SetBufferAddress
pub mod StartField
pub mod StartOfHeader
pub mod Reads
pub mod Loop
pub mod Sequence
pub mod Exact
use protocol_tn.Base.{
  ℕ, zero, suc, ◌+◌, ◌-◌, ◌*◌, ◌/◌, ◌%◌, ◌^◌, ◌≤◌, ◌<◌, min, Bool, true, false, not, ◌&&◌, ◌||◌,
  Option, none, some, List, [], ◌∷◌, ◌++◌, map, Bytes, IsByte, IsBytes, All, be16, is_empty, length,
  take, drop, get_or, set, replicate, ltb, leb, ◌==◌, if◌then◌else◌, ◌≡◌, refl, sym, ap, ap₂, ◌∙◌,
  ◌≢◌, inl, inr, ◌⊎◌, arith, Bool-cases, ==_iff, length-append, length-take, length-drop,
  take_append, drop_append, get_or_append, append-nil, append_assoc, take-length, drop-length,
  take_prefix, drop_prefix, subst, take-append-drop, tests, ltb→lt, ltb→ge, lt→ltb, ge→ltb,
}
use protocol_tn.Message.Result.{
  Error, Result, ok, err, ◌>>=◌, no_order_code, unknown_order_code, in_order,
}
use protocol_tn.Message.Order.Code.{
  start_of_header, repeat_to_address, insert_cursor, set_buffer_address, start_field, is_order_code,
}
use protocol_tn.Message.Order.InsertCursor
use protocol_tn.Message.Order.RepeatToAddress
use protocol_tn.Message.Order.SetBufferAddress
use protocol_tn.Message.Order.StartField
use protocol_tn.Message.Order.StartOfHeader

pub data Order : Type 0 where
  soh : StartOfHeader.StartOfHeader → Order
  ic : InsertCursor.InsertCursor → Order
  ra : RepeatToAddress.RepeatToAddress → Order
  sba : SetBufferAddress.SetBufferAddress → Order
  sf : StartField.StartField → Order

-- The variant with what was read, or the error under its prefix.
abbrev pub as_order {ℓ} : {A : Type ℓ} → (A → Order) → Result (A × ℕ) → Result (Order × ℕ)
as_order f (ok (o, n)) = ok (f o, n)
as_order f (err e) = err (in_order e)

-- The order at the start of the buffer, and the bytes that it takes.
unfoldable pub unmarshal_order : Bytes → Result (Order × ℕ)
unmarshal_order [] = err no_order_code
unmarshal_order (b ∷ bs) =
    if b == start_of_header
    then as_order soh (StartOfHeader.unmarshal (b ∷ bs))
    else if b == repeat_to_address
    then as_order ra (RepeatToAddress.unmarshal (b ∷ bs))
    else if b == insert_cursor
    then as_order ic (InsertCursor.unmarshal (b ∷ bs))
    else if b == set_buffer_address
    then as_order sba (SetBufferAddress.unmarshal (b ∷ bs))
    else if b == start_field
    then as_order sf (StartField.unmarshal (b ∷ bs))
    else err (unknown_order_code b)

-- From the next byte that is the code of an order.
unfoldable pub skip_to_order : Bytes → Bytes
skip_to_order [] = []
skip_to_order (b ∷ bs) = if is_order_code b then b ∷ bs else skip_to_order bs

-- One round of the loop at what is left, and `again` behind the order.
unfoldable pub read_round : (Bytes → Result (List Order)) → Bytes → Result (List Order)
read_round again [] = ok []
read_round again (b ∷ rest) = do
  (o, n) ← unmarshal_order (b ∷ rest)
  os ← again (drop n (b ∷ rest))
  ok (o ∷ os)

-- The loop. A failure leaves no orders, and its error. Fuel: each round takes a byte at least.
unfoldable pub unmarshal_orders_loop : ℕ → Bytes → Result (List Order)
unmarshal_orders_loop zero bs = ok []
unmarshal_orders_loop (suc fuel) bs = read_round (unmarshal_orders_loop fuel) (skip_to_order bs)

unfoldable pub unmarshal_orders : Bytes → Result (List Order)
unmarshal_orders bs = unmarshal_orders_loop (length bs) bs

-- std::visit of marshal.
abbrev pub marshal_order : Order → Bytes
marshal_order (soh o) = StartOfHeader.marshal o
marshal_order (ic o) = InsertCursor.marshal o
marshal_order (ra o) = RepeatToAddress.marshal o
marshal_order (sba o) = SetBufferAddress.marshal o
marshal_order (sf o) = StartField.marshal o

-- The orders one behind the other.
abbrev pub marshal_orders : List Order → Bytes
marshal_orders [] = []
marshal_orders (o ∷ os) = marshal_order o ++ marshal_orders os
