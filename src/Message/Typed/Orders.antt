-- ===== src/Message/Typed/Orders.antt =====
-- The orders keep to the ranges of their C++ types.
use protocol_tn.Base.{
  ℕ, zero, suc, ◌+◌, ◌*◌, ◌/◌, ◌%◌, ◌^◌, ◌<◌, Bool, true, false, List, [], ◌∷◌, ◌++◌, Bytes, IsByte,
  IsBytes, All, All-drop, be16, length, take, drop, get_or, ◌==◌, if◌then◌else◌, inl, inr, arith,
  Bool-cases,
}
use protocol_tn.Message.Result.{Result, ok, err, ◌>>=◌}
use protocol_tn.Message.Order.Code.{
  start_of_header, repeat_to_address, insert_cursor, set_buffer_address, start_field, is_order_code,
}
use protocol_tn.Message.Order.InsertCursor
use protocol_tn.Message.Order.RepeatToAddress
use protocol_tn.Message.Order.SetBufferAddress
use protocol_tn.Message.Order.SetBufferAddress.{display_data}
use protocol_tn.Message.Order.StartField
use protocol_tn.Message.Order.StartField.{read_control_words, unmarshal_rest, word_bytes}
use protocol_tn.Message.Order.StartOfHeader
use protocol_tn.Message.Order.{
  Order, soh, ic, ra, sba, sf, as_order, unmarshal_order, skip_to_order, read_round,
  unmarshal_orders_loop, unmarshal_orders, marshal_order, marshal_orders,
}

-- A result that is no failure satisfies the predicate.
abbrev pub OnOk {ℓ} : {A : Type ℓ} → (A → Type 0) → Result A → Type 0
OnOk P (ok a) = P a
OnOk P (err e) = Unit

pub byte_at : (bs : Bytes) (i : ℕ) → IsBytes bs → get_or bs i 0 < 256
byte_at [] i h = omega arith
byte_at (b ∷ bs) zero (h, hs) = h
byte_at (b ∷ bs) (suc i) (h, hs) = byte_at bs i hs

pub append-IsBytes : (xs ys : Bytes) → IsBytes xs → IsBytes ys → IsBytes (xs ++ ys)
append-IsBytes [] ys h k = k
append-IsBytes (x ∷ xs) ys (h, hs) k = (h, append-IsBytes xs ys hs k)

take-IsBytes : (n : ℕ) (xs : Bytes) → IsBytes xs → IsBytes (take n xs)
take-IsBytes zero xs h = tt
take-IsBytes (suc n) [] h = tt
take-IsBytes (suc n) (x ∷ xs) (h, hs) = (h, take-IsBytes n xs hs)

-- The members of each class: uint8_t and std::string of bytes, and uint16_t.
abbrev pub OrderFits : Order → Type 0
OrderFits (soh o) = IsBytes (
    o.code ∷ o.header_length ∷ o.flags ∷ o.flags_reserved ∷ o.resequence_to_field ∷ o.error_row
    ∷ o.command_key_switch1 ∷ o.command_key_switch2 ∷ o.command_key_switch3 ∷ [])
OrderFits (ic o) = IsBytes (o.code ∷ o.row_address ∷ o.column_address ∷ [])
OrderFits (ra o) = IsBytes (o.code ∷ o.row_address ∷ o.column_address ∷ o.repeated_character)
OrderFits (sba o) = IsBytes (o.code ∷ o.row_address ∷ o.column_address ∷ o.repeated_character)
OrderFits (sf o) =
    IsBytes (o.code ∷ o.format_word1 ∷ o.format_word2 ∷ o.attributes ∷ o.repeated_character)
    × All (λ w. w < 2 ^ 16) o.control_words
    × (o.field_length < 2 ^ 16)

display_data-IsBytes : (bs : Bytes) → IsBytes bs → IsBytes (display_data bs)
unfolding display_data
display_data-IsBytes [] h = tt
display_data-IsBytes (b ∷ bs) (h, hs) = ground (arith, display_data-IsBytes bs hs, h)

control_words_fit : (bs : Bytes) → IsBytes bs → All (λ w. w < 2 ^ 16) (read_control_words bs)
unfolding read_control_words
control_words_fit [] h = tt
control_words_fit (a ∷ []) h = tt
control_words_fit (a ∷ b ∷ bs) (h, (k, hs)) = elim (Bool-cases (a / 32 % 8 == 1)) [
  | inl e ↦ rw e tt
  | inr e ↦ rw e (omega (arith, h, k), control_words_fit bs hs)
]

abbrev Reads : Result (Order × ℕ) → Type 0
Reads = OnOk (λ r. OrderFits r.0)

insert_cursor_fits : (bs : Bytes) → IsBytes bs → Reads (as_order ic (InsertCursor.unmarshal bs))
unfolding InsertCursor.unmarshal
insert_cursor_fits bs h = ground (arith, byte_at bs 1 h, byte_at bs 2 h)

repeat_fits : (bs : Bytes) → IsBytes bs → Reads (as_order ra (RepeatToAddress.unmarshal bs))
unfolding RepeatToAddress.unmarshal
repeat_fits bs h = ground (arith, byte_at bs 1 h, byte_at bs 2 h, byte_at bs 3 h)

address_fits : (bs : Bytes) → IsBytes bs → Reads (as_order sba (SetBufferAddress.unmarshal bs))
unfolding SetBufferAddress.unmarshal
address_fits bs h = ground (
  arith,
  byte_at bs 0 h,
  byte_at bs 1 h,
  byte_at bs 2 h,
  display_data-IsBytes (drop 3 bs) (All-drop IsByte 3 bs h),
)

header_fits : (bs : Bytes) → IsBytes bs → Reads (as_order soh (StartOfHeader.unmarshal bs))
unfolding StartOfHeader.unmarshal
header_fits bs h = ground (
  arith,
  byte_at bs 0 h,
  byte_at bs 1 h,
  byte_at bs 2 h,
  byte_at bs 3 h,
  byte_at bs 4 h,
  byte_at bs 5 h,
  byte_at bs 6 h,
  byte_at bs 7 h,
  byte_at bs 8 h,
)

field_fits : (bs : Bytes) → IsBytes bs → Reads (as_order sf (StartField.unmarshal bs))
unfolding StartField.unmarshal unmarshal_rest
field_fits bs h =
    let words = read_control_words (drop 3 bs) in
    let rest = drop (3 + 2 * length words) bs in
    let r = All-drop IsByte (3 + 2 * length words) bs h in
    ground (
      arith,
      byte_at bs 0 h,
      byte_at bs 1 h,
      byte_at bs 2 h,
      byte_at rest 0 r,
      byte_at rest 1 r,
      byte_at rest 2 r,
      control_words_fit (drop 3 bs) (All-drop IsByte 3 bs h),
      take-IsBytes (be16 (get_or rest 1 0) (get_or rest 2 0)) (drop 3 rest)
          (All-drop IsByte 3 rest r),
    )

unmarshal_order-OrderFits : (bs : Bytes) → IsBytes bs → Reads (unmarshal_order bs)
unfolding unmarshal_order
unmarshal_order-OrderFits [] h = tt
unmarshal_order-OrderFits (b ∷ bs) h = picked (b == start_of_header) _ _ (header_fits (b ∷ bs) h) (
    picked (b == repeat_to_address) _ _ (repeat_fits (b ∷ bs) h) (
      picked (b == insert_cursor) _ _ (insert_cursor_fits (b ∷ bs) h) (
        picked (b == set_buffer_address) _ _ (address_fits (b ∷ bs) h)
          (picked (b == start_field) _ _ (field_fits (b ∷ bs) h) tt))))
  where
    picked : (c : Bool) (x y : Result (Order × ℕ)) → Reads x → Reads y → Reads (if c then x else y)
    picked true x y h k = h
    picked false x y h k = k

skip_to_order-IsBytes : (bs : Bytes) → IsBytes bs → IsBytes (skip_to_order bs)
unfolding skip_to_order
skip_to_order-IsBytes [] h = tt
skip_to_order-IsBytes (b ∷ bs) (h, hs) = elim (Bool-cases (is_order_code b)) [
  | inl e ↦ rw e (h, hs)
  | inr e ↦ rw e (skip_to_order-IsBytes bs hs)
]

read_on :
    (again : Bytes → Result (List Order)) (bs : Bytes)
    → ((cs : Bytes) → IsBytes cs → OnOk (All OrderFits) (again cs))
    → IsBytes bs
    → OnOk (All OrderFits) (read_round again bs)
unfolding read_round
read_on again [] k h = tt
read_on again (b ∷ rest) k h =
    read (unmarshal_order (b ∷ rest)) (unmarshal_order-OrderFits (b ∷ rest) h)
  where
    joined :
        (o : Order) (r : Result (List Order))
        → OrderFits o
        → OnOk (All OrderFits) r
        → OnOk (All OrderFits) (r >>= λ os. ok (o ∷ os))
    joined o (ok os) h k = (h, k)
    joined o (err e) h k = tt

    read :
        (r : Result (Order × ℕ))
        → Reads r
        → OnOk (All OrderFits) (r >>= λ p. (again (drop p.1 (b ∷ rest)) >>= λ os. ok (p.0 ∷ os)))
    read (ok (o, n)) v =
        joined o (again (drop n (b ∷ rest))) v
          (k (drop n (b ∷ rest)) (All-drop IsByte n (b ∷ rest) h))
    read (err e) v = tt

unmarshal_orders_loop-OrderFits :
    (f : ℕ) (bs : Bytes) → IsBytes bs → OnOk (All OrderFits) (unmarshal_orders_loop f bs)
unfolding unmarshal_orders_loop
unmarshal_orders_loop-OrderFits zero bs h = tt
unmarshal_orders_loop-OrderFits (suc f) bs h =
    read_on (unmarshal_orders_loop f) (skip_to_order bs) (unmarshal_orders_loop-OrderFits f)
      (skip_to_order-IsBytes bs h)

pub unmarshal_orders-OrderFits :
    (bs : Bytes) → IsBytes bs → OnOk (All OrderFits) (unmarshal_orders bs)
unfolding unmarshal_orders
unmarshal_orders-OrderFits bs h = unmarshal_orders_loop-OrderFits (length bs) bs h

word_bytes-IsBytes : (ws : List ℕ) → All (λ w. w < 2 ^ 16) ws → IsBytes (word_bytes ws)
word_bytes-IsBytes [] h = tt
word_bytes-IsBytes (w ∷ ws) (h, hs) = (omega (arith, h), (omega arith, word_bytes-IsBytes ws hs))

marshal_order-IsBytes : (o : Order) → OrderFits o → IsBytes (marshal_order o)
unfolding InsertCursor.marshal RepeatToAddress.marshal SetBufferAddress.marshal StartField.marshal
    StartOfHeader.marshal
marshal_order-IsBytes (soh o) h = h
marshal_order-IsBytes (ic o) h = h
marshal_order-IsBytes (ra o) (h, (k, (l, m))) =
    (h, (k, (l, (byte_at o.repeated_character 0 m, tt))))
marshal_order-IsBytes (sba o) h = h
marshal_order-IsBytes (sf o) ((h, (k, (l, (m, n)))), ws, f) = (
  h,
  (
    k,
    (
      l,
      append-IsBytes (word_bytes o.control_words) _ (word_bytes-IsBytes o.control_words ws)
          (m, (omega arith, (omega arith, n))),
    ),
  ),
)

pub marshal_orders-IsBytes : (os : List Order) → All OrderFits os → IsBytes (marshal_orders os)
marshal_orders-IsBytes [] h = tt
marshal_orders-IsBytes (o ∷ os) (h, hs) =
    append-IsBytes (marshal_order o) (marshal_orders os) (marshal_order-IsBytes o h)
      (marshal_orders-IsBytes os hs)
