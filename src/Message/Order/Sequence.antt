-- ===== src/Message/Order/Sequence.antt =====
-- The loop over the display orders of a command: its fuel, and the orders that are marshalled.
use protocol_tn.Base.{
  ℕ, zero, suc, ◌≤◌, ◌<◌, false, List, [], ◌∷◌, ◌++◌, Bytes, All, length, drop, ◌≡◌, refl, sym, ap,
  ◌∙◌, arith, length-drop, drop-length,
}
use protocol_tn.Message.Result.{Result, ok, err, ◌>>=◌}
use protocol_tn.Message.Order.Code.{is_order_code}
use protocol_tn.Message.Order.InsertCursor
use protocol_tn.Message.Order.RepeatToAddress
use protocol_tn.Message.Order.SetBufferAddress
use protocol_tn.Message.Order.StartField
use protocol_tn.Message.Order.StartOfHeader
use protocol_tn.Message.Order.{
  Order, soh, ic, ra, sba, sf, unmarshal_order, skip_to_order, read_round, unmarshal_orders_loop,
  unmarshal_orders, marshal_order, marshal_orders,
}
use protocol_tn.Message.Order.Reads.{IsOrder, AtOrder, unmarshal_order-marshal_order}
use protocol_tn.Message.Order.Loop.{TakesWithin, unmarshal_order-TakesWithin}

length-skip_to_order : (bs : Bytes) → length (skip_to_order bs) ≤ length bs
unfolding skip_to_order
length-skip_to_order [] = omega arith
length-skip_to_order (b ∷ bs) = ground (arith, length-skip_to_order bs)

read_round_with :
    (k l : Bytes → Result (List Order)) (s : Bytes) (r : Result (Order × ℕ))
    → TakesWithin (length s) r
    → ((t : Bytes) → length t < length s → k t ≡ l t)
    → (r >>= λ (o, n). k (drop n s) >>= λ os. ok (o ∷ os))
      ≡ (r >>= λ (o, n). l (drop n s) >>= λ os. ok (o ∷ os))
read_round_with k l s (ok (o, n)) (lo, hi) h =
    ap (λ r. r >>= λ os. ok (o ∷ os)) (h (drop n s) (omega (arith, length-drop n s)))
read_round_with k l s (err e) w h = refl

read_round-agree :
    (k l : Bytes → Result (List Order)) (s : Bytes)
    → ((t : Bytes) → length t < length s → k t ≡ l t)
    → read_round k s ≡ read_round l s
unfolding read_round
read_round-agree k l [] h = refl
read_round-agree k l (b ∷ s) h =
    read_round_with k l (b ∷ s) (unmarshal_order (b ∷ s)) (unmarshal_order-TakesWithin (b ∷ s)) h

any_fuel :
    (f g : ℕ) (bs : Bytes)
    → length bs ≤ f
    → length bs ≤ g
    → unmarshal_orders_loop f bs ≡ unmarshal_orders_loop g bs
unfolding unmarshal_orders_loop read_round skip_to_order
any_fuel zero zero bs h k = refl
any_fuel zero (suc g) [] h k = refl
any_fuel zero (suc g) (b ∷ bs) h k = absurd (omega arith)
any_fuel (suc f) zero [] h k = refl
any_fuel (suc f) zero (b ∷ bs) h k = absurd (omega arith)
any_fuel (suc f) (suc g) bs h k =
    let s = length-skip_to_order bs in
    read_round-agree (unmarshal_orders_loop f) (unmarshal_orders_loop g) (skip_to_order bs)
      (λ t l. any_fuel f g t (omega arith) (omega arith))

-- Any fuel that is the length of the buffer at least gives the same orders or the same error: the
-- loop ends before its fuel.
pub unmarshal_orders_loop-fuel :
    (f : ℕ) (bs : Bytes) → length bs ≤ f → unmarshal_orders_loop f bs ≡ unmarshal_orders bs
unfolding unmarshal_orders
unmarshal_orders_loop-fuel f bs h = any_fuel f (length bs) bs h (omega arith)

-- A round with the orders of the rest of the buffer.
read_round-unmarshal_orders :
    (bs : Bytes) → unmarshal_orders bs ≡ read_round unmarshal_orders (skip_to_order bs)
unfolding unmarshal_orders unmarshal_orders_loop read_round skip_to_order
read_round-unmarshal_orders [] = refl
read_round-unmarshal_orders (b ∷ bs) =
    let s = length-skip_to_order (b ∷ bs) in
    read_round-agree (unmarshal_orders_loop (length bs)) unmarshal_orders (skip_to_order (b ∷ bs))
      (λ t l. any_fuel (length bs) (length t) t (omega arith) (omega arith))

skip_to_order-append :
    (text bs : Bytes)
    → All (λ b. is_order_code b ≡ false) text
    → skip_to_order (text ++ bs) ≡ skip_to_order bs
unfolding skip_to_order
skip_to_order-append [] bs h = refl
skip_to_order-append (x ∷ text) bs (h, hs) = rw h (skip_to_order-append text bs hs)

-- Bytes in front of the orders, none of them the code of an order, are passed over.
pub unmarshal_orders-append :
    (text bs : Bytes)
    → All (λ b. is_order_code b ≡ false) text
    → unmarshal_orders (text ++ bs) ≡ unmarshal_orders bs
unmarshal_orders-append text bs h =
    read_round-unmarshal_orders (text ++ bs)
    ∙ ap (read_round unmarshal_orders) (skip_to_order-append text bs h)
    ∙ sym (read_round-unmarshal_orders bs)

-- The code of an order stands in front of its bytes.
marshal_order-AtOrder : (o : Order) (rest : Bytes) → IsOrder o → AtOrder (marshal_order o ++ rest)
unfolding StartOfHeader.marshal InsertCursor.marshal RepeatToAddress.marshal
    SetBufferAddress.marshal StartField.marshal
marshal_order-AtOrder (soh o) rest h = rw h refl
marshal_order-AtOrder (ic o) rest h = rw h refl
marshal_order-AtOrder (ra o) rest h = rw h.0 refl
marshal_order-AtOrder (sba o) rest h = rw h.0 refl
marshal_order-AtOrder (sf o) rest h = rw h.0 refl

marshal_orders-AtOrder : (os : List Order) → All IsOrder os → AtOrder (marshal_orders os)
marshal_orders-AtOrder [] h = tt
marshal_orders-AtOrder (o ∷ os) (h, hs) = marshal_order-AtOrder o (marshal_orders os) h

skip_to_order-AtOrder : (bs : Bytes) → AtOrder bs → skip_to_order bs ≡ bs
unfolding skip_to_order
skip_to_order-AtOrder [] h = refl
skip_to_order-AtOrder (b ∷ bs) h = rw h refl

read_round_at :
    (s : Bytes) (o : Order) (n : ℕ)
    → unmarshal_order s ≡ ok (o, n)
    → read_round unmarshal_orders s ≡ (unmarshal_orders (drop n s) >>= λ os. ok (o ∷ os))
unfolding read_round unmarshal_order
read_round_at [] o n e = ground arith
read_round_at (b ∷ s) o n e = rw e refl

unmarshal_orders-empty : unmarshal_orders [] ≡ ok []
unfolding unmarshal_orders unmarshal_orders_loop
unmarshal_orders-empty = refl

-- Well-formed orders that are marshalled one behind the other are unmarshalled again, to the same list.
-- An address holds no code of an order, and a field has the attribute and the length that it says.
pub unmarshal_orders-marshal_orders :
    (os : List Order) → All IsOrder os → unmarshal_orders (marshal_orders os) ≡ ok os
unmarshal_orders-marshal_orders [] h = unmarshal_orders-empty
unmarshal_orders-marshal_orders (o ∷ os) (h, hs) =
    let rest = marshal_orders os in
    let bs = marshal_order o ++ rest in
    read_round-unmarshal_orders bs
    ∙ ap (read_round unmarshal_orders) (skip_to_order-AtOrder bs (marshal_order-AtOrder o rest h))
    ∙ read_round_at bs o (length (marshal_order o))
        (unmarshal_order-marshal_order o rest h (marshal_orders-AtOrder os hs))
    ∙ rw (drop-length (marshal_order o) rest, unmarshal_orders-marshal_orders os hs) refl
