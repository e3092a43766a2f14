-- ===== src/Decoder/Orders/Ends.antt =====
-- The loop of Write To Display ends: each round takes a byte at least, and the loop ends at an ESC
-- or with the payload.
use protocol_tn.Base.{
  ℕ, zero, suc, ◌+◌, ◌/◌, ◌%◌, ◌≤◌, [], ◌∷◌, Bytes, be16, length, drop, get_or, ◌==◌, ◌≡◌, refl,
  inl, inr, arith, Bool-cases, length-drop,
}
use protocol_tn.Protocol.{esc}
use protocol_tn.Decoder.Orders.{
  soh_order, td_order, wdsf_order, strpccmd_payload, command_span, fcw_span, sf_span, order_at,
  orders,
}

fcw_span-le : (bs : Bytes) → fcw_span bs ≤ length bs
unfolding fcw_span
fcw_span-le [] = omega arith
fcw_span-le (a ∷ []) = omega arith
fcw_span-le (a ∷ b ∷ bs) = elim (Bool-cases (a / 32 % 8 == 1)) [
  | inl e ↦ rw e (omega arith)
  | inr e ↦ rw e (omega (arith, fcw_span-le bs))
]

sf_span_pos : (b : ℕ) (bs : Bytes) → 1 ≤ sf_span (b ∷ bs)
unfolding sf_span
sf_span_pos b bs = ground arith

command_span-le : (n : ℕ) (bs : Bytes) → command_span n bs ≤ length bs
unfolding command_span
command_span-le zero bs = omega arith
command_span-le (suc n) [] = omega arith
command_span-le (suc n) (b ∷ bs) = ground (arith, command_span-le n bs)

strpccmd_payload-le : (bs : Bytes) → length (strpccmd_payload bs).1 ≤ length bs
unfolding strpccmd_payload
strpccmd_payload-le [] = omega arith
strpccmd_payload-le (flag ∷ bs) = ground (arith, length-drop (command_span 123 bs) bs)

pub order_at-le : (ob : ℕ) (rest : Bytes) → length (order_at ob (ob ∷ rest)).1 ≤ length rest
unfolding order_at soh_order td_order wdsf_order
order_at-le ob rest = ground (
  arith,
  sf_span_pos ob rest,
  length-drop 2 rest,
  length-drop 3 rest,
  length-drop 9 rest,
  length-drop (sf_span (ob ∷ rest)) (ob ∷ rest),
  length-drop (2 + get_or rest 0 0) (ob ∷ rest),
  length-drop (1 + be16 (get_or rest 0 0) (get_or rest 1 0)) (ob ∷ rest),
  strpccmd_payload-le (drop 9 rest),
)

pub orders_fuel : (f g : ℕ) (bs : Bytes) → length bs ≤ f → length bs ≤ g → orders f bs ≡ orders g bs
unfolding orders
orders_fuel zero zero bs p q = refl
orders_fuel zero (suc g) [] p q = refl
orders_fuel zero (suc g) (b ∷ bs) p q = absurd (omega arith)
orders_fuel (suc f) zero [] p q = refl
orders_fuel (suc f) zero (b ∷ bs) p q = absurd (omega arith)
orders_fuel (suc f) (suc g) [] p q = refl
orders_fuel (suc f) (suc g) (b ∷ bs) p q =
    ground (arith, order_at-le b bs, orders_fuel f g (order_at b (b ∷ bs)).1)

-- The end of the payload, or an ESC.
abbrev pub AtEsc : Bytes → Type 0
AtEsc [] = Unit
AtEsc (b ∷ bs) = b ≡ esc

-- With fuel for its length, the loop over the orders of a Write To Display stops nowhere but at an
-- ESC or at the end of the payload, and leaves no more bytes than it was given.
pub orders-AtEsc :
    (f : ℕ) (bs : Bytes)
    → length bs ≤ f
    → AtEsc (orders f bs).1 × (length (orders f bs).1 ≤ length bs)
unfolding orders
orders-AtEsc zero [] h = (tt, omega arith)
orders-AtEsc zero (b ∷ bs) h = absurd (omega arith)
orders-AtEsc (suc f) [] h = (tt, omega arith)
orders-AtEsc (suc f) (b ∷ bs) h =
    ground (arith, order_at-le b bs, orders-AtEsc f (order_at b (b ∷ bs)).1)
