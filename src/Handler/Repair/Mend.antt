-- ===== src/Handler/Repair/Mend.antt =====
-- repairGdsRecordLength: what it mends, and that it mends once.
use protocol_tn.Base.{
  ℕ, ◌-◌, ◌/◌, ◌%◌, ◌≤◌, Bool, true, false, ◌&&◌, [], ◌∷◌, ◌++◌, Bytes, length, get_or, set, leb,
  ◌==◌, ◌≡◌, refl, sym, ap, ◌∙◌, inl, inr, arith, Bool-cases, length-append, append-nil, subst,
}
use protocol_tn.Protocol.{gds_record_type_hi, gds_record_type_lo}
use protocol_tn.Handler.Repair.{walk_chain, repair_gds_record_length}
use protocol_tn.Handler.Repair.Chain.{
  IsLink, IsChain, end, link, walked, repair-IsChain, Walk, walk, IsChain-append, walked_chain,
  set-append, get_or-append_right,
}

-- The tail is long enough for a header, short enough for the length field, and has the type of a
-- GDS record.
pub record IsMendable (tail : Bytes) : Type 0 where
  pub header : 10 ≤ length tail
  pub fits : length tail ≤ 65535
  pub type_hi : get_or tail 2 0 ≡ gds_record_type_hi
  pub type_lo : get_or tail 3 0 ≡ gds_record_type_lo

-- The length field rewritten.
abbrev pub mend : Bytes → Bytes
mend tail = set (set tail 0 (length tail / 256)) 1 (length tail % 256)

mend-IsLink : (tail : Bytes) → IsMendable tail → IsLink (mend tail)
mend-IsLink [] v = absurd (omega arith)
mend-IsLink (b ∷ []) v = absurd (omega arith)
mend-IsLink (b ∷ c ∷ bs) v = omega arith

repair_mends :
    (passed tail : Bytes)
    → IsChain passed
    → walked tail ≡ 0
    → IsMendable tail
    → repair_gds_record_length (passed ++ tail) ≡ passed ++ mend tail
unfolding repair_gds_record_length walked
repair_mends passed tail c e v =
    rw (pos, size)
      (ground (
        arith,
        length-append passed tail,
        get_or-append_right passed tail 2,
        get_or-append_right passed tail 3,
        first (length tail / 256),
        set-append passed (set tail 0 (length tail / 256)) 1 (length tail % 256),
      ))
  where
    pos : walk_chain (length (passed ++ tail)) (passed ++ tail) ≡ length passed
    pos = let w = walked_chain passed tail c in omega arith

    size : length (passed ++ tail) - length passed ≡ length tail
    size = omega (arith, length-append passed tail)

    first : (v : ℕ) → set (passed ++ tail) (length passed) v ≡ passed ++ set tail 0 v
    first v = ap (λ (k : ℕ). set (passed ++ tail) k v) (omega arith) ∙ set-append passed tail 0 v

-- Where the walk along right length fields ends at a tail that could be a record but for its length,
-- the tail's length field is rewritten and nothing else; every length field is right then.
pub repair-mend :
    (passed tail : Bytes)
    → IsChain passed
    → walked tail ≡ 0
    → IsMendable tail
    → (repair_gds_record_length (passed ++ tail) ≡ passed ++ mend tail)
      × IsChain (repair_gds_record_length (passed ++ tail))
repair-mend passed tail c e v =
    let r = repair_mends passed tail c e v in
    let m : IsChain (mend tail) =
      subst IsChain (append-nil (mend tail)) (link (mend tail) [] (mend-IsLink tail v) end) in
    (r, subst IsChain (sym r) (IsChain-append passed (mend tail) c m))

-- Whether a tail can be mended.
is_mendable : Bytes → Bool
is_mendable tail =
    leb 10 (length tail)
    && leb (length tail) 65535
    && (get_or tail 2 0 == gds_record_type_hi)
    && (get_or tail 3 0 == gds_record_type_lo)

mendable : (tail : Bytes) → is_mendable tail ≡ true → IsMendable tail
unfolding is_mendable
mendable tail h = record {
  header = ground arith;
  fits = ground arith;
  type_hi = ground arith;
  type_lo = ground arith;
}

repair_refuses :
    (passed tail : Bytes)
    → IsChain passed
    → walked tail ≡ 0
    → is_mendable tail ≡ false
    → repair_gds_record_length (passed ++ tail) ≡ passed ++ tail
unfolding repair_gds_record_length walked is_mendable
repair_refuses passed tail c e h =
    rw (pos, size)
      (ground (arith, get_or-append_right passed tail 2, get_or-append_right passed tail 3))
  where
    pos : walk_chain (length (passed ++ tail)) (passed ++ tail) ≡ length passed
    pos = let w = walked_chain passed tail c in omega arith

    size : length (passed ++ tail) - length passed ≡ length tail
    size = omega (arith, length-append passed tail)

length-mend : (tail : Bytes) → length (mend tail) ≡ length tail
length-mend [] = refl
length-mend (b ∷ []) = refl
length-mend (b ∷ c ∷ bs) = refl

-- Repair keeps the size of a record, and has nothing left to do the second time.
pub repair_settles :
    (bs : Bytes)
    → (length (repair_gds_record_length bs) ≡ length bs)
      × (repair_gds_record_length (repair_gds_record_length bs) ≡ repair_gds_record_length bs)
repair_settles bs = elim (Bool-cases (is_mendable k.tail)) [
  | inl e ↦
      let m = repair-mend k.passed k.tail k.chain k.stuck (mendable k.tail e) in
      rw k.splits (
        rw m.0 (
            omega (
              arith,
              length-append k.passed (mend k.tail),
              length-append k.passed k.tail,
              length-mend k.tail,
            )),
        repair-IsChain _ m.1,
      )
  | inr e ↦ rw k.splits (
    rw (repair_refuses k.passed k.tail k.chain k.stuck e),
    rw (repair_refuses k.passed k.tail k.chain k.stuck e)
        (repair_refuses k.passed k.tail k.chain k.stuck e),
  )
]
  where
    k : Walk bs
    k = walk bs
