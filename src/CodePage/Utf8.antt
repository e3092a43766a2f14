-- ===== src/CodePage/Utf8.antt =====
-- The conversion of UTF-8 in tn5250/codepage/codepage.cpp against UTF-8 as RFC 3629 has it.
use protocol_tn.Base.{
  ℕ, zero, suc, ◌+◌, ◌/◌, ◌%◌, ◌≤◌, ◌<◌, Bool, true, false, List, [], ◌∷◌, ◌++◌, map, Bytes, All,
  length, get_or, ltb, if◌then◌else◌, ◌≡◌, refl, ap, ap₂, ◌∙◌, ◌≢◌, inl, inr, ◌⊎◌, arith,
  Bool-cases, length-append, drop-length,
}
use protocol_tn.CodePage.Tables.{Table, assign, init_common_letters_and_digits, init_cp037}
use protocol_tn.CodePage.Tables.National.{
  init_cp273, init_cp277, init_cp278, init_cp280, init_cp284, init_cp285, init_cp297, init_cp500,
}
use protocol_tn.CodePage.Tables.Eastern.{init_cp870, init_cp420}
use protocol_tn.CodePage.Tables.Southern.{init_cp424, init_cp838}
use protocol_tn.CodePage.{cp037, cp870, cp420, cp424, cp838, blank_table, reverse_lookup}
use protocol_tn.CodePage.Laws.{bounded, below_u16, to_unicode-from_unicode}
use protocol_tn.CodePage.{
  PageId, to_unicode_table, to_unicode_in, to_unicode, from_unicode_in, from_unicode, decode_utf8,
  from_unicode_loop, from_unicode_string,
}

-- The bytes of a code point: the first, and those behind it.
abbrev pub first_byte : ℕ → ℕ
first_byte cp =
    if ltb cp 0x80
    then cp
    else if ltb cp 0x800
    then 0xC0 + cp / 64
    else if ltb cp 0x10000
    then 0xE0 + cp / 4096
    else 0xF0 + cp / 262144

abbrev pub more_bytes : ℕ → Bytes
more_bytes cp =
    if ltb cp 0x80
    then []
    else if ltb cp 0x800
    then (0x80 + cp % 64) ∷ []
    else if ltb cp 0x10000
    then (0x80 + cp / 64 % 64) ∷ (0x80 + cp % 64) ∷ []
    else (0x80 + cp / 4096 % 64) ∷ (0x80 + cp / 64 % 64) ∷ (0x80 + cp % 64) ∷ []

abbrev pub utf8 : List ℕ → Bytes
utf8 [] = []
utf8 (cp ∷ cps) = first_byte cp ∷ (more_bytes cp ++ utf8 cps)

-- A code point of Unicode.
abbrev pub IsCodePoint : ℕ → Type 0
IsCodePoint cp = cp < 0x110000

decoded :
    (cp : ℕ) (rest : Bytes)
    → IsCodePoint cp
    → decode_utf8 (first_byte cp) (first_byte cp ∷ (more_bytes cp ++ rest))
      ≡ (cp, suc (length (more_bytes cp)))
unfolding decode_utf8
decoded cp rest h = elim (Bool-cases (ltb cp 0x80)) [
  | inl e ↦ rw e (ground (arith, e))
  | inr e ↦ elim (Bool-cases (ltb cp 0x800)) [
    | inl f ↦ rw (e, f) (two cp rest e f)
    | inr f ↦ elim (Bool-cases (ltb cp 0x10000)) [
      | inl g ↦ rw (e, f, g) (three cp rest f g)
      | inr g ↦ rw (e, f, g) (four cp rest g h)
    ]
  ]
]
  where
    two :
        (cp : ℕ) (rest : Bytes)
        → ltb cp 0x80 ≡ false
        → ltb cp 0x800 ≡ true
        → decode_utf8 (0xC0 + cp / 64) ((0xC0 + cp / 64) ∷ (0x80 + cp % 64) ∷ rest) ≡ (cp, 2)
    two cp rest e f = ground (arith, e, f)

    three :
        (cp : ℕ) (rest : Bytes)
        → ltb cp 0x800 ≡ false
        → ltb cp 0x10000 ≡ true
        → decode_utf8
            (0xE0 + cp / 4096)
            ((0xE0 + cp / 4096) ∷ (0x80 + cp / 64 % 64) ∷ (0x80 + cp % 64) ∷ rest)
          ≡ (cp, 3)
    three cp rest f g = ground (arith, f, g)

    four :
        (cp : ℕ) (rest : Bytes)
        → ltb cp 0x10000 ≡ false
        → cp < 0x110000
        → decode_utf8 (0xF0 + cp / 262144) (
            (0xF0 + cp / 262144)
            ∷ (0x80 + cp / 4096 % 64)
            ∷ (0x80 + cp / 64 % 64)
            ∷ (0x80 + cp % 64)
            ∷ rest)
          ≡ (cp, 4)
    four cp rest g h = ground (arith, g, h)

converted :
    (t : Table) (fuel : ℕ) (cps : List ℕ)
    → All IsCodePoint cps
    → length (utf8 cps) ≤ fuel
    → from_unicode_loop t fuel (utf8 cps) ≡ map (from_unicode_in t) cps
unfolding from_unicode_loop
converted t zero [] h l = refl
converted t (suc fuel) [] h l = refl
converted t zero (cp ∷ cps) h l = absurd (omega arith)
converted t (suc fuel) (cp ∷ cps) (h, hs) l =
    rw (decoded cp (utf8 cps) h, drop-length (more_bytes cp) (utf8 cps))
      (ap (◌∷◌ (from_unicode_in t cp))
        (converted t fuel cps hs (omega (arith, length-append (more_bytes cp) (utf8 cps)))))

-- The UTF-8 of any code points of Unicode is converted code point by code point, whatever the number
-- of bytes of each, and nothing is left over.
pub from_unicode_string-utf8 :
    (id : PageId) (cps : List ℕ)
    → All IsCodePoint cps
    → from_unicode_string id (utf8 cps) ≡ map (from_unicode id) cps
unfolding from_unicode_string from_unicode
from_unicode_string-utf8 id cps h =
    converted (to_unicode_table id) (length (utf8 cps)) cps h (omega arith)

-- The pages that map each byte but 0 to a character. In the others the last byte without one stands
-- for U+0000 in the reverse table.
abbrev pub keeps_nul : PageId → Bool
keeps_nul cp870 = false
keeps_nul cp420 = false
keeps_nul cp424 = false
keeps_nul cp838 = false
keeps_nul _ = true

nul_again : (id : PageId) → to_unicode id (from_unicode id 0) ≡ (if keeps_nul id then 0 else 0xFFFD)
unfolding to_unicode_table blank_table assign init_common_letters_and_digits init_cp037 init_cp273
    init_cp277 init_cp278 init_cp280 init_cp284 init_cp285 init_cp297 init_cp500 init_cp870
    init_cp420 init_cp424 init_cp838 to_unicode to_unicode_in from_unicode from_unicode_in
    reverse_lookup
nul_again cp870 = refl
nul_again cp420 = refl
nul_again cp424 = refl
nul_again cp838 = refl
nul_again cp037 = refl
nul_again _ = refl

nul_first : (id : PageId) → to_unicode id 0 ≡ 0
unfolding to_unicode_table blank_table assign init_common_letters_and_digits init_cp037 init_cp273
    init_cp277 init_cp278 init_cp280 init_cp284 init_cp285 init_cp297 init_cp500 init_cp870
    init_cp420 init_cp424 init_cp838 to_unicode to_unicode_in
nul_first cp037 = refl
nul_first _ = refl

-- The table has an entry other than 0 for the byte, or it is byte 0 in a page that keeps it.
abbrev pub Returns : PageId → ℕ → Type 0
Returns id b = (get_or (to_unicode_table id) b 0 ≢ 0) ⊎ ((b ≡ 0) × (keeps_nul id ≡ true))

to_unicode-IsCodePoint : (id : PageId) (b : ℕ) → IsCodePoint (to_unicode id b)
unfolding to_unicode to_unicode_in
to_unicode-IsCodePoint id b = ground (arith, below_u16 (to_unicode_table id) b (bounded id))

map-IsCodePoint : (id : PageId) (bs : Bytes) → All IsCodePoint (map (to_unicode id) bs)
map-IsCodePoint id [] = tt
map-IsCodePoint id (b ∷ bs) = (to_unicode-IsCodePoint id b, map-IsCodePoint id bs)

one_again :
    (id : PageId) (b : ℕ)
    → Returns id b
    → to_unicode id (from_unicode id (to_unicode id b)) ≡ to_unicode id b
one_again id b (inl h) = to_unicode-from_unicode id b h
one_again id b (inr (z, k)) = rw (z, nul_first id, nul_again id, k) refl

back_again :
    (id : PageId) (bs : Bytes)
    → All (Returns id) bs
    → map (to_unicode id) (map (from_unicode id) (map (to_unicode id) bs)) ≡ map (to_unicode id) bs
back_again id [] h = refl
back_again id (b ∷ bs) (h, hs) = ap₂ (◌∷◌) (one_again id b h) (back_again id bs hs)

-- A text of bytes that is converted to Unicode, sent as UTF-8 and converted back is the same text of
-- Unicode again, in every page, if the page's table has an entry other than 0 for each byte that is
-- not 0, and the bytes 0 stand in a page other than 870, 420, 424 and 838. In these four, byte 0,
-- which is U+0000, comes back as U+FFFD.
pub to_unicode-from_unicode_string :
    (id : PageId) (bs : Bytes)
    → All (Returns id) bs
    → (map (to_unicode id) (from_unicode_string id (utf8 (map (to_unicode id) bs)))
        ≡ map (to_unicode id) bs)
      × (map (to_unicode id) (from_unicode_string id (utf8 (map (to_unicode id) (0 ∷ []))))
          ≡ (if keeps_nul id then 0 else 0xFFFD) ∷ [])
to_unicode-from_unicode_string id bs h = (
  ap (map (to_unicode id))
        (from_unicode_string-utf8 id (map (to_unicode id) bs) (map-IsCodePoint id bs))
      ∙ back_again id bs h,
  ap (map (to_unicode id))
        (from_unicode_string-utf8 id (map (to_unicode id) (0 ∷ [])) (map-IsCodePoint id (0 ∷ [])))
      ∙ ap (λ u. u ∷ [])
          (ap (λ z. to_unicode id (from_unicode id z)) (nul_first id) ∙ nul_again id),
)
