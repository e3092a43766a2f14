-- ===== src/Utils/Hex/Laws.antt =====
-- The texts of tn5250/utils/hex are read back, and a dump has its lines.
use protocol_tn.Base.{
  ℕ, zero, suc, ◌+◌, ◌-◌, ◌*◌, ◌/◌, ◌%◌, ◌^◌, ◌≤◌, ◌<◌, [], ◌∷◌, ◌++◌, Bytes, length, replicate,
  ltb, ◌==◌, if◌then◌else◌, ◌≡◌, refl, ap, ◌∙◌, inl, inr, arith, Bool-cases, ==_iff, length-append,
  length-replicate, subst,
}
use native.Mathlib.Nat.{pow-zero, pow-suc, div-lt_iff_lt-mul, pow-le-pow_right}
use protocol_tn.Utils.Hex.{
  lower_digit, upper_digit, digits, zero_filled, to_hex_string_padded_generic,
}

-- The number that a hexadecimal digit says, of either case.
abbrev pub digit_value : ℕ → ℕ
digit_value c = if ltb c 0x3A then c - 0x30 else if ltb c 0x61 then c - 0x37 else c - 0x57

-- The number that hexadecimal digits say, behind `n`.
abbrev pub hex_value : ℕ → Bytes → ℕ
hex_value n [] = n
hex_value n (c ∷ cs) = hex_value (16 * n + digit_value c) cs

hex_value-append : (xs ys : Bytes) (n : ℕ) → hex_value n (xs ++ ys) ≡ hex_value (hex_value n xs) ys
hex_value-append [] ys n = refl
hex_value-append (x ∷ xs) ys n = hex_value-append xs ys (16 * n + digit_value x)

lower_value : (d : ℕ) → d < 16 → digit_value (lower_digit d) ≡ d
lower_value d h = ground arith

pub upper_value : (d : ℕ) → d < 16 → digit_value (upper_digit d) ≡ d
upper_value d h = ground arith

-- Enough fuel gives digits that say the number.
digits_value :
    (digit : ℕ → ℕ)
    → ((d : ℕ) → d < 16 → digit_value (digit d) ≡ d)
    → (f v : ℕ) → v < 16 ^ f
    → hex_value 0 (digits 16 digit f v) ≡ v
unfolding digits
digits_value digit k zero v h = omega arith
digits_value digit k (suc f) v h =
    let p = pow-suc 16 f in
    let rec = digits_value digit k f (v / 16) (omega (arith, p)) in
    let last = k (v % 16) (omega arith) in
    elim (Bool-cases (v / 16 == 0)) [
      | inl e ↦ let none = ==_iff (v / 16) 0 in rw (e, last) (ground arith)
      | inr e ↦
          rw (e, hex_value-append (digits 16 digit f (v / 16)) (digit (v % 16) ∷ []) 0, rec, last)
            (omega arith)
    ]

pub length-digits :
    (base : ℕ) (digit : ℕ → ℕ) (f w v : ℕ)
    → 0 < base
    → v < base ^ suc w
    → length (digits base digit f v) ≤ suc w
unfolding digits
length-digits base digit zero w v b h = omega arith
length-digits base digit (suc f) zero v b h =
    let p : v < 1 * base =
      subst (λ q. v < q) (pow-suc base 0 ∙ ap (λ z. z * base) (pow-zero base)) h in
    let z : v / base < 1 = (div-lt_iff_lt-mul b).1 p in ground (arith, z)
length-digits base digit (suc f) (suc w) v b h =
    let p : v < base ^ suc w * base = subst (λ q. v < q) (pow-suc base (suc w)) h in
    let q : v / base < base ^ suc w = (div-lt_iff_lt-mul b).1 p in
    let rec : length (digits base digit f (v / base)) ≤ suc w =
      length-digits base digit f w (v / base) b q in
    ground (arith, length-append (digits base digit f (v / base)) (digit (v % base) ∷ []), rec)

zeros_value : (n : ℕ) (bs : Bytes) → hex_value 0 (replicate n 0x30 ++ bs) ≡ hex_value 0 bs
zeros_value zero bs = refl
zeros_value (suc n) bs = zeros_value n bs

pub length-zero_filled :
    (width : ℕ) (ds : Bytes) → length ds ≤ width → length (zero_filled width ds) ≡ width
length-zero_filled width ds h = omega (
  arith,
  length-append (replicate (width - length ds) 0x30) ds,
  length-replicate {A = ℕ} (width - length ds) 0x30,
)

pow_le : (w f : ℕ) → w ≤ f → 16 ^ w ≤ 16 ^ f
pow_le w f h = pow-le-pow_right {n = 16} (omega arith) h

-- A number below 16 ^ width, of a width up to 16, is written with just `width` digits, which say the number.
pub hex_value-to_hex_string_padded_generic :
    (v width : ℕ)
    → 1 ≤ width
    → width ≤ 16
    → v < 16 ^ width
    → (length (to_hex_string_padded_generic v width) ≡ width)
      × (hex_value 0 (to_hex_string_padded_generic v width) ≡ v)
unfolding to_hex_string_padded_generic
hex_value-to_hex_string_padded_generic v zero lo hi h = absurd (omega arith)
hex_value-to_hex_string_padded_generic v (suc w) lo hi h =
    let ds = digits 16 lower_digit 16 v in
    let wide = pow_le (suc w) 16 hi in
    (
      length-zero_filled (suc w) ds (length-digits 16 lower_digit 16 w v (omega arith) h),
      zeros_value (suc w - length ds) ds ∙ digits_value lower_digit lower_value 16 v (omega arith),
    )
