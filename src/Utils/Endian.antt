-- ===== src/Utils/Endian.antt =====
-- tn5250/utils/endianness: big_endian.cpp and little_endian.cpp.
use protocol_tn.Base.{
  ℕ, ◌+◌, ◌*◌, ◌/◌, ◌%◌, ◌^◌, ◌<◌, [], ◌∷◌, ◌++◌, Bytes, IsByte, get_or, ◌≡◌, refl, arith,
}

abbrev pub be16_read : ℕ → ℕ → ℕ
be16_read a1 a2 = (a1 * 2 ^ 8 + a2) % 2 ^ 16

abbrev pub be16_write : Bytes → ℕ → Bytes
be16_write out v = out ++ (v / 2 ^ 8 % 2 ^ 8 ∷ v % 2 ^ 8 ∷ [])

abbrev pub be32_read : ℕ → ℕ → ℕ → ℕ → ℕ
be32_read a1 a2 a3 a4 = (a1 * 2 ^ 24 + a2 * 2 ^ 16 + a3 * 2 ^ 8 + a4) % 2 ^ 32

abbrev pub be32_write : Bytes → ℕ → Bytes
be32_write out v =
    out ++ (v / 2 ^ 24 % 2 ^ 8 ∷ v / 2 ^ 16 % 2 ^ 8 ∷ v / 2 ^ 8 % 2 ^ 8 ∷ v % 2 ^ 8 ∷ [])

abbrev pub le16_read : ℕ → ℕ → ℕ
le16_read lo hi = (hi * 2 ^ 8 + lo) % 2 ^ 16

abbrev pub le16_write : Bytes → ℕ → Bytes
le16_write out v = out ++ (v % 2 ^ 8 ∷ v / 2 ^ 8 % 2 ^ 8 ∷ [])

abbrev pub le32_read : ℕ → ℕ → ℕ → ℕ → ℕ
le32_read a1 a2 a3 a4 = (a4 * 2 ^ 24 + a3 * 2 ^ 16 + a2 * 2 ^ 8 + a1) % 2 ^ 32

abbrev pub le32_write : Bytes → ℕ → Bytes
le32_write out v =
    out ++ (v % 2 ^ 8 ∷ v / 2 ^ 8 % 2 ^ 8 ∷ v / 2 ^ 16 % 2 ^ 8 ∷ v / 2 ^ 24 % 2 ^ 8 ∷ [])

-- The bytes of a number read together again.
abbrev read4 : (ℕ → ℕ → ℕ → ℕ → ℕ) → Bytes → ℕ
read4 read bs = read (get_or bs 0 0) (get_or bs 1 0) (get_or bs 2 0) (get_or bs 3 0)

-- The number of four bytes, and the four bytes of it.
abbrev word_number : ℕ → ℕ → ℕ → ℕ → ℕ
word_number a b c d = (a * 2 ^ 24 + b * 2 ^ 16 + c * 2 ^ 8 + d) % 2 ^ 32

word_bytes :
    (a b c d : ℕ)
    → IsByte a
    → IsByte b
    → IsByte c
    → IsByte d
    → (word_number a b c d / 2 ^ 24 % 2 ^ 8 ≡ a)
      × (word_number a b c d / 2 ^ 16 % 2 ^ 8 ≡ b)
      × (word_number a b c d / 2 ^ 8 % 2 ^ 8 ≡ c)
      × (word_number a b c d % 2 ^ 8 ≡ d)
word_bytes a b c d ha hb hc hd = (omega arith, omega arith, omega arith, omega arith)

-- What is written for a 32-bit number is read as that number, in either byte order.
pub read-write :
    (v : ℕ)
    → v < 2 ^ 32
    → (read4 be32_read (be32_write [] v) ≡ v) × (read4 le32_read (le32_write [] v) ≡ v)
read-write v h = (omega arith, omega arith)

-- Reading four bytes and writing them gives the four bytes, in either byte order.
pub write-read :
    (a b c d : ℕ)
    → IsByte a
    → IsByte b
    → IsByte c
    → IsByte d
    → (be32_write [] (be32_read a b c d) ≡ a ∷ b ∷ c ∷ d ∷ [])
      × (le32_write [] (le32_read a b c d) ≡ a ∷ b ∷ c ∷ d ∷ [])
write-read a b c d ha hb hc hd =
    let (x0, x1, x2, x3) = word_bytes a b c d ha hb hc hd in
    let (y3, y2, y1, y0) = word_bytes d c b a hd hc hb ha in
    (rw (x0, x1, x2, x3) refl, rw (y0, y1, y2, y3) refl)
