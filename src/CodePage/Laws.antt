-- ===== src/CodePage/Laws.antt =====
-- The reverse table of a code page undoes its table.
use protocol_tn.Base.{
  ℕ, zero, suc, ◌<◌, Bool, true, ◌&&◌, [], ◌∷◌, ◌++◌, length, get_or, ltb, ◌==◌, if◌then◌else◌, ◌≡◌,
  refl, ◌∙◌, ◌≢◌, inl, inr, arith, Bool-cases, ==_iff, length-append, append_assoc,
}
use protocol_tn.CodePage.Tables.{Table, assign, init_common_letters_and_digits, init_cp037}
use protocol_tn.CodePage.Tables.National.{
  init_cp273, init_cp277, init_cp278, init_cp280, init_cp284, init_cp285, init_cp297, init_cp500,
}
use protocol_tn.CodePage.Tables.Eastern.{init_cp870, init_cp420}
use protocol_tn.CodePage.Tables.Southern.{init_cp424, init_cp838}
use protocol_tn.CodePage.{
  PageId, cp037, blank_table, to_unicode_table, to_unicode_in, reverse_lookup, from_unicode_in,
  to_unicode, from_unicode,
}

get_or-length : (pre t : Table) (u : ℕ) → get_or (pre ++ (u ∷ t)) (length pre) 0 ≡ u
get_or-length [] t u = refl
get_or-length (x ∷ pre) t u = get_or-length pre t u

-- The lookup of `code` keeps an index that holds it.
reverse_lookup_keeps :
    (pre t : Table) (code found : ℕ)
    → get_or (pre ++ t) found 0 ≡ code
    → get_or (pre ++ t) (reverse_lookup t (length pre) code found) 0 ≡ code
unfolding reverse_lookup
reverse_lookup_keeps pre [] code found h = h
reverse_lookup_keeps pre (u ∷ t) code found h =
    let assoc = append_assoc pre (u ∷ []) t in
    let more = λ (k : ℕ) (e : get_or (pre ++ (u ∷ t)) k 0 ≡ code).
      rw (assoc, length-append pre (u ∷ [])) at
        (reverse_lookup_keeps (pre ++ (u ∷ [])) t code k (rw assoc e)) in
    elim (Bool-cases (u == code)) [
      | inl e ↦ rw e (more (length pre) (get_or-length pre t u ∙ (==_iff u code).0 e))
      | inr e ↦ rw e (more found h)
    ]

-- An index that holds `code` is enough for the lookup to end at one.
reverse_lookup_hits :
    (pre t : Table) (k code found : ℕ)
    → k < length t
    → get_or t k 0 ≡ code
    → get_or (pre ++ t) (reverse_lookup t (length pre) code found) 0 ≡ code
unfolding reverse_lookup
reverse_lookup_hits pre [] k code found l h = absurd (omega arith)
reverse_lookup_hits pre (u ∷ t) zero code found l h =
    let e = (==_iff u code).1 h in
    rw e (rw e at (reverse_lookup_keeps pre (u ∷ t) code (length pre) (get_or-length pre t u ∙ h)))
reverse_lookup_hits pre (u ∷ t) (suc k) code found l h =
    rw (append_assoc pre (u ∷ []) t, length-append pre (u ∷ [])) at
      (reverse_lookup_hits (pre ++ (u ∷ [])) t k code (if u == code then length pre else found)
        (omega arith) h)

pub all_below_u16 : Table → Bool
all_below_u16 [] = true
all_below_u16 (u ∷ t) = ltb u 0x10000 && all_below_u16 t

pub bounded : (id : PageId) → all_below_u16 (to_unicode_table id) ≡ true
unfolding all_below_u16 to_unicode_table blank_table assign init_common_letters_and_digits
    init_cp037 init_cp273 init_cp277 init_cp278 init_cp280 init_cp284 init_cp285 init_cp297
    init_cp500 init_cp870 init_cp420 init_cp424 init_cp838
bounded cp037 = refl
bounded _ = refl

-- Byte 0 stands for U+0000 in every page.
head_zero : (id : PageId) → get_or (to_unicode_table id) 0 0 ≡ 0
unfolding to_unicode_table blank_table assign init_common_letters_and_digits init_cp037 init_cp273
    init_cp277 init_cp278 init_cp280 init_cp284 init_cp285 init_cp297 init_cp500 init_cp870
    init_cp420 init_cp424 init_cp838
head_zero cp037 = refl
head_zero _ = refl

in_range : (t : Table) (b : ℕ) → get_or t b 0 ≢ 0 → b < length t
in_range [] b h = absurd (h refl)
in_range (u ∷ t) zero h = omega arith
in_range (u ∷ t) (suc b) h = omega (arith, in_range t b h)

pub below_u16 : (t : Table) (b : ℕ) → all_below_u16 t ≡ true → get_or t b 0 < 0x10000
unfolding all_below_u16
below_u16 [] b h = omega arith
below_u16 (u ∷ t) zero h = ground arith
below_u16 (u ∷ t) (suc b) h = ground (arith, below_u16 t b)

-- In every page, the character of a mapped byte other than 0 is sent back to a byte that stands for
-- the same character.
pub to_unicode-from_unicode :
    (id : PageId) (b : ℕ)
    → get_or (to_unicode_table id) b 0 ≢ 0
    → to_unicode id (from_unicode id (to_unicode id b)) ≡ to_unicode id b
unfolding to_unicode from_unicode to_unicode_in from_unicode_in
to_unicode-from_unicode id b h =
    let t = to_unicode_table id in
    let u = get_or t b 0 in
    let hit = reverse_lookup_hits [] t b u 0 (in_range t b h) refl in
    ground (arith, hit, head_zero id, below_u16 t b (bounded id))
