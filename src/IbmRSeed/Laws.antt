-- ===== src/IbmRSeed/Laws.antt =====
-- The arithmetic of the IBMRSEED exchange, against big-endian numbers.
use protocol_tn.Base.{
  ◌^◌, ℕ, suc, ◌+◌, ◌*◌, ◌/◌, ◌%◌, ◌<◌, [], ◌∷◌, Bytes, IsBytes, length, get_or, ◌≡◌, refl, ap, ◌∙◌,
  arith,
}
use native.Mathlib.Nat.{pow-suc}
use protocol_tn.IbmRSeed.{shift_bytes, left_shift1, add_bytes, add_big_endian8}

-- The number that a list of bytes stands for, most significant byte first.
unfoldable pub big_endian : Bytes → ℕ
big_endian [] = 0
big_endian (b ∷ bs) = b * 256 ^ length bs + big_endian bs

pub length-add_bytes : (a b : Bytes) → length a ≡ length b → length (add_bytes a b).1 ≡ length a
unfolding add_bytes
length-add_bytes [] b h = refl
length-add_bytes (x ∷ xs) [] h = absurd (omega arith)
length-add_bytes (x ∷ xs) (y ∷ ys) h = omega (arith, length-add_bytes xs ys (omega arith))

-- A digit of weight `p` with its carry of weight 256 * p.
carry : (s p rest : ℕ) → s / 256 * (p * 256) + (s % 256 * p + rest) ≡ s * p + rest
carry s p rest = split (s / 256) (s % 256) (omega arith)
  where
    split : (q r : ℕ) → s ≡ q * 256 + r → q * (p * 256) + (r * p + rest) ≡ s * p + rest
    split q r e = rw e (omega arith)

add_bytes_value :
    (a b : Bytes)
    → length a ≡ length b
    → (add_bytes a b).0 * 256 ^ length a + big_endian (add_bytes a b).1
      ≡ big_endian a + big_endian b
unfolding add_bytes big_endian
add_bytes_value [] [] h = refl
add_bytes_value [] (y ∷ ys) h = absurd (omega arith)
add_bytes_value (x ∷ xs) [] h = absurd (omega arith)
add_bytes_value (x ∷ xs) (y ∷ ys) h =
    let l : length xs ≡ length ys = omega arith in
    rw (length-add_bytes xs ys l, ← l, pow-suc)
      (carry (x + y + (add_bytes xs ys).0) (256 ^ length xs) (big_endian (add_bytes xs ys).1)
        ∙ omega (arith, add_bytes_value xs ys l))

pub length-shift_bytes : (bs : Bytes) → length (shift_bytes bs) ≡ length bs
unfolding shift_bytes
length-shift_bytes [] = refl
length-shift_bytes (b ∷ bs) = ap suc (length-shift_bytes bs)

shift_bytes_value :
    (bs : Bytes)
    → IsBytes bs
    → big_endian (shift_bytes bs) + get_or bs 0 0 / 128 * 256 ^ length bs ≡ 2 * big_endian bs
unfolding shift_bytes big_endian
shift_bytes_value [] h = refl
shift_bytes_value (b ∷ bs) (h, hs) =
    rw (length-shift_bytes bs, pow-suc)
      (digits (b / 128) (b * 2 % 256) (256 ^ length bs) _ _ (omega arith) (shift_bytes_value bs hs))
  where
    digits :
        (q r p shifted top : ℕ)
        → b * 2 ≡ q * 256 + r
        → shifted + top * p ≡ 2 * big_endian bs
        → (r + top) * p + shifted + q * (p * 256) ≡ 2 * (b * p + big_endian bs)
    digits q r p shifted top e f =
        let g : b * 2 * p ≡ (q * 256 + r) * p = ap (λ (t : ℕ). t * p) e in omega arith

big_endian_lt : (bs : Bytes) → IsBytes bs → big_endian bs < 256 ^ length bs
unfolding big_endian
big_endian_lt [] h = omega arith
big_endian_lt (b ∷ bs) (h, hs) = rw pow-suc (top b (256 ^ length bs) h (big_endian_lt bs hs))
  where
    top : (b p : ℕ) → b < 256 → big_endian bs < p → b * p + big_endian bs < p * 256
    top b p h k = grind arith

add_bytes-IsBytes : (a b : Bytes) → IsBytes (add_bytes a b).1
unfolding add_bytes
add_bytes-IsBytes [] bs = tt
add_bytes-IsBytes (x ∷ xs) [] = tt
add_bytes-IsBytes (x ∷ xs) (y ∷ ys) = (omega arith, add_bytes-IsBytes xs ys)

shift_bytes-IsBytes : (bs : Bytes) → IsBytes bs → IsBytes (shift_bytes bs)
unfolding shift_bytes
shift_bytes-IsBytes [] h = tt
shift_bytes-IsBytes (b ∷ []) h = (omega arith, tt)
shift_bytes-IsBytes (b ∷ c ∷ bs) (h, (k, hs)) = (omega arith, shift_bytes-IsBytes (c ∷ bs) (k, hs))

-- A number with its carry above 64 bits.
wrapped :
    (bs : Bytes) (c n : ℕ)
    → length bs ≡ 8
    → IsBytes bs
    → c * 256 ^ 8 + big_endian bs ≡ n
    → big_endian bs ≡ n % 2 ^ 64
wrapped bs c n l h e =
    let lt : big_endian bs < 256 ^ 8 = rw l at (big_endian_lt bs h) in omega arith

-- The sequence numbers are added as 64-bit big-endian numbers that wrap around.
pub add_big_endian8_value :
    (a b : Bytes)
    → length a ≡ 8
    → length b ≡ 8
    → big_endian (add_big_endian8 a b) ≡ (big_endian a + big_endian b) % 2 ^ 64
unfolding add_big_endian8
add_big_endian8_value a b h k =
    let e = rw h at (add_bytes_value a b (omega arith)) in
    rw (h, k)
      (wrapped (add_bytes a b).1 (add_bytes a b).0 _
        (omega (arith, length-add_bytes a b (omega arith))) (add_bytes-IsBytes a b) e)

-- The shift is that of a 64-bit big-endian number, whose top bit is lost.
pub left_shift1_value :
    (bs : Bytes)
    → IsBytes bs
    → length bs ≡ 8
    → big_endian (left_shift1 bs) ≡ 2 * big_endian bs % 2 ^ 64
unfolding left_shift1
left_shift1_value bs v h =
    let e = rw h at (shift_bytes_value bs v) in
    rw h (
      wrapped (shift_bytes bs) (get_or bs 0 0 / 128) _ (omega (arith, length-shift_bytes bs))
        (shift_bytes-IsBytes bs v) (omega arith))
