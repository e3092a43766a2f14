-- ===== src/Utils/Binary.antt =====
-- tn5250/utils/binary: binary.cpp.
use protocol_tn.Base.{
  ℕ, zero, suc, ◌+◌, ◌-◌, ◌*◌, ◌/◌, ◌%◌, ◌^◌, ◌<◌, [], ◌∷◌, Bytes, length, ◌==◌, if◌then◌else◌, ◌≡◌,
  refl, sym, ap, ◌∙◌, arith,
}
use native.Mathlib.Nat.{pow-suc, div-div-eq-div-mul, div-eq_of_lt}

unfoldable pub to_binary_padded_generic : ℕ → ℕ → Bytes
to_binary_padded_generic value zero = []
to_binary_padded_generic value (suc width) =
    (if value / 2 ^ width % 2 == 1 then 0x31 else 0x30) ∷ to_binary_padded_generic value width

abbrev pub to_binary_string_padded_8 : ℕ → Bytes
to_binary_string_padded_8 v = to_binary_padded_generic v 8

abbrev pub to_binary_string_padded_16 : ℕ → Bytes
to_binary_string_padded_16 v = to_binary_padded_generic v 16

abbrev pub to_binary_string_padded_32 : ℕ → Bytes
to_binary_string_padded_32 v = to_binary_padded_generic v 32

abbrev pub to_binary_string_padded_64 : ℕ → Bytes
to_binary_string_padded_64 v = to_binary_padded_generic v 64

-- The number that a text of binary digits says, behind `n`.
abbrev pub binary_value : ℕ → Bytes → ℕ
binary_value n [] = n
binary_value n (c ∷ cs) = binary_value (2 * n + (c - 0x30)) cs

bit_value : (n q : ℕ) → n ≡ q / 2 → 2 * n + ((if q % 2 == 1 then 0x31 else 0x30) - 0x30) ≡ q
bit_value n q h = ground arith

binary_value-generic :
    (w n v : ℕ) → n ≡ v / 2 ^ w → binary_value n (to_binary_padded_generic v w) ≡ v
unfolding to_binary_padded_generic
binary_value-generic zero n v h = h ∙ omega arith
binary_value-generic (suc w) n v h =
    let half : n ≡ v / 2 ^ w / 2 =
      h ∙ ap (◌/◌ v) (pow-suc 2 w) ∙ sym (div-div-eq-div-mul v (2 ^ w) 2) in
    ap (λ k. binary_value k (to_binary_padded_generic v w)) (bit_value n (v / 2 ^ w) half)
    ∙ binary_value-generic w (v / 2 ^ w) v refl

length-binary : (w v : ℕ) → length (to_binary_padded_generic v w) ≡ w
unfolding to_binary_padded_generic
length-binary zero v = refl
length-binary (suc w) v = omega (arith, length-binary w v)

-- A number below 2 ^ width is written with just `width` digits, which say the number.
pub binary_value-to_binary_padded_generic :
    (v width : ℕ)
    → v < 2 ^ width
    → (length (to_binary_padded_generic v width) ≡ width)
      × (binary_value 0 (to_binary_padded_generic v width) ≡ v)
binary_value-to_binary_padded_generic v width h =
    (length-binary width v, binary_value-generic width 0 v (sym (div-eq_of_lt h)))
