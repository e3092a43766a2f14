-- ===== src/Message/Order/Loop.antt =====
-- The loop over the display orders of a command: it ends by itself, and reads back what is marshalled.
use protocol_tn.Base.{
  ℕ, ◌+◌, ◌*◌, ◌≤◌, [], ◌∷◌, Bytes, be16, length, drop, get_or, arith, length-take, length-drop,
}
use protocol_tn.Message.Result.{Result, ok, err}
use protocol_tn.Message.Order.InsertCursor
use protocol_tn.Message.Order.RepeatToAddress
use protocol_tn.Message.Order.SetBufferAddress
use protocol_tn.Message.Order.StartField
use protocol_tn.Message.Order.StartOfHeader
use protocol_tn.Message.Order.{Order, soh, ic, ra, sba, sf, as_order, unmarshal_order}

-- A success has taken a byte at least, and none beyond the end.
abbrev pub TakesWithin {ℓ} : {A : Type ℓ} → ℕ → Result (A × ℕ) → Type 0
TakesWithin size (ok (o, n)) = (1 ≤ n) × (n ≤ size)
TakesWithin size (err e) = Unit

sf_within : (bs : Bytes) → TakesWithin (length bs) (StartField.unmarshal bs)
unfolding StartField.unmarshal StartField.unmarshal_rest
sf_within bs =
    let k = 3 + 2 * length (StartField.read_control_words (drop 3 bs)) in
    let rest = drop k bs in
    let len = be16 (get_or rest 1 0) (get_or rest 2 0) in
    ground (arith, length-drop k bs, length-drop 3 rest, length-take len (drop 3 rest))

length-display_data : (bs : Bytes) → length (SetBufferAddress.display_data bs) ≤ length bs
unfolding SetBufferAddress.display_data
length-display_data [] = omega arith
length-display_data (b ∷ bs) = ground (arith, length-display_data bs)

sba_within : (bs : Bytes) → TakesWithin (length bs) (SetBufferAddress.unmarshal bs)
unfolding SetBufferAddress.unmarshal
sba_within bs = ground (arith, length-display_data (drop 3 bs), length-drop 3 bs)

soh_within : (bs : Bytes) → TakesWithin (length bs) (StartOfHeader.unmarshal bs)
unfolding StartOfHeader.unmarshal
soh_within bs = ground arith

ic_within : (bs : Bytes) → TakesWithin (length bs) (InsertCursor.unmarshal bs)
unfolding InsertCursor.unmarshal
ic_within bs = ground arith

ra_within : (bs : Bytes) → TakesWithin (length bs) (RepeatToAddress.unmarshal bs)
unfolding RepeatToAddress.unmarshal
ra_within bs = ground arith

as_order_within {ℓ} :
    {A : Type ℓ} (f : A → Order) (n : ℕ) (r : Result (A × ℕ))
    → TakesWithin n r
    → TakesWithin n (as_order f r)
as_order_within f n (ok (o, k)) h = h
as_order_within f n (err e) h = tt

-- An order that is read takes a byte at least, and none beyond the end of the buffer.
pub unmarshal_order-TakesWithin : (bs : Bytes) → TakesWithin (length bs) (unmarshal_order bs)
unfolding unmarshal_order
unmarshal_order-TakesWithin [] = tt
unmarshal_order-TakesWithin (b ∷ bs) = ground (
  arith,
  as_order_within soh _ _ (soh_within (b ∷ bs)),
  as_order_within ra _ _ (ra_within (b ∷ bs)),
  as_order_within ic _ _ (ic_within (b ∷ bs)),
  as_order_within sba _ _ (sba_within (b ∷ bs)),
  as_order_within sf _ _ (sf_within (b ∷ bs)),
)
