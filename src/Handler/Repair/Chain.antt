-- ===== src/Handler/Repair/Chain.antt =====
-- The walk of repairGdsRecordLength along length fields, and the records that it leaves alone.
use protocol_tn.Base.{
  ℕ, zero, suc, ◌+◌, ◌≤◌, ◌<◌, [], ◌∷◌, ◌++◌, Bytes, length, take, drop, get_or, set, ltb, ◌≡◌,
  refl, sym, ap, ◌∙◌, inl, inr, ◌⊎◌, arith, Bool-cases, length-append, length-take, length-drop,
  get_or_append, append_assoc, drop-length, subst, take-append-drop, ltb→lt, ltb→ge,
}
use Prim.Native.Nat.add
use protocol_tn.Decoder.Stream.Framing.{announced}
use protocol_tn.Handler.Repair.{walk_chain, repair_gds_record_length}

-- A list of bytes whose length field is right.
pub record IsLink (rec : Bytes) : Type 0 where
  pub long_enough : 6 ≤ length rec
  pub announces : announced rec ≡ length rec

-- Cut by length fields that are all right.
pub data IsChain : Bytes → Type 0 where
  end : IsChain []
  link : (rec more : Bytes) → IsLink rec → IsChain more → IsChain (rec ++ more)

walk_chain_fuel :
    (f g : ℕ) (bs : Bytes) → length bs ≤ f → length bs ≤ g → walk_chain f bs ≡ walk_chain g bs
unfolding walk_chain
walk_chain_fuel zero zero bs p q = refl
walk_chain_fuel zero (suc g) bs p q = ground arith
walk_chain_fuel (suc f) zero bs p q = ground arith
walk_chain_fuel (suc f) (suc g) bs p q =
    ground (arith, length-drop (announced bs) bs, walk_chain_fuel f g (drop (announced bs) bs))

-- Where the walk ends.
unfoldable pub walked : Bytes → ℕ
walked bs = walk_chain (length bs) bs

walked_link : (rec more : Bytes) → IsLink rec → walked (rec ++ more) ≡ length rec + walked more
unfolding walked walk_chain
walked_link rec more v =
    walk_chain_fuel (length (rec ++ more)) (suc (length (rec ++ more))) (rec ++ more) (omega arith)
      (omega arith)
    ∙ ground (
      arith,
      length-append rec more,
      get_or_append 0 rec more 0,
      get_or_append 1 rec more 0,
      drop-length rec more,
      walk_chain_fuel (length (rec ++ more)) (length more) more,
    )

walked_nil : walked [] ≡ 0
unfolding walked walk_chain
walked_nil = refl

walked-IsChain : (bs : Bytes) → IsChain bs → walked bs ≡ length bs
walked-IsChain _ end = walked_nil
walked-IsChain _ (link rec more v c) =
    rw (walked_link rec more v, walked-IsChain more c, length-append rec more)

-- A record, or several, whose length fields are right is left alone.
pub repair-IsChain : (bs : Bytes) → IsChain bs → repair_gds_record_length bs ≡ bs
unfolding repair_gds_record_length walked
repair-IsChain bs c = ground (arith, walked-IsChain bs c)

-- The links that the walk passes, and the bytes at which it ends.
pub record Walk (bs : Bytes) : Type 0 where
  pub passed : Bytes
  pub tail : Bytes
  pub chain : IsChain passed
  pub splits : bs ≡ passed ++ tail
  pub stuck : walked tail ≡ 0

pub IsChain-append : (a b : Bytes) → IsChain a → IsChain b → IsChain (a ++ b)
IsChain-append _ b end c = c
IsChain-append _ b (link rec more v d) c =
    subst IsChain (sym (append_assoc rec more b))
      (link rec (more ++ b) v (IsChain-append more b d c))

walked_bad : (bs : Bytes) → (announced bs < 6) ⊎ (length bs < announced bs) → walked bs ≡ 0
unfolding walked walk_chain
walked_bad [] h = refl
walked_bad (b ∷ bs) h = ground arith

get_or-take :
    (n i : ℕ) (bs : Bytes) → i < length (take n bs) → get_or (take n bs) i 0 ≡ get_or bs i 0
get_or-take n i bs h =
    sym (get_or_append i (take n bs) (drop n bs) 0 h)
    ∙ ap (λ (xs : Bytes). get_or xs i 0) (take-append-drop n bs)

take-IsLink :
    (bs : Bytes) → 6 ≤ announced bs → announced bs ≤ length bs → IsLink (take (announced bs) bs)
take-IsLink bs h l =
    let n = announced bs in
    let size : length (take n bs) ≡ n = omega (arith, length-take n bs) in
    record {
      long_enough = omega arith;
      announces = omega (arith, get_or-take n 0 bs (omega arith), get_or-take n 1 bs (omega arith));
    }

-- The walk ends at once, or passes a link.
first-IsLink :
    (bs : Bytes) → (walked bs ≡ 0) ⊎ (IsLink (take (announced bs) bs) × (announced bs ≤ length bs))
first-IsLink bs = elim (Bool-cases (ltb (announced bs) 6)) [
  | inl e ↦ inl (walked_bad bs (inl (ltb→lt _ _ e)))
  | inr e ↦ elim (Bool-cases (ltb (length bs) (announced bs))) [
    | inl f ↦ inl (walked_bad bs (inr (ltb→lt _ _ f)))
    | inr f ↦ inr (take-IsLink bs (ltb→ge _ _ e) (ltb→ge _ _ f), ltb→ge _ _ f)
  ]
]

Walk-within : (f : ℕ) (bs : Bytes) → length bs ≤ f → Walk bs
Walk-within zero [] h = record {
  passed = [];
  tail = [];
  chain = end;
  splits = refl;
  stuck = walked_nil;
}
Walk-within zero (b ∷ bs) h = absurd (omega arith)
Walk-within (suc f) bs h = elim (first-IsLink bs) [
  | inl e ↦ record { passed = []; tail = bs; chain = end; splits = refl; stuck = e }
  | inr (v, l) ↦
      step
        (Walk-within f (drop (announced bs) bs) (
          omega
            (arith, length-drop (announced bs) bs, length-take (announced bs) bs, v.long_enough)))
        v
]
  where
    step : Walk (drop (announced bs) bs) → IsLink (take (announced bs) bs) → Walk bs
    step k v = record {
      passed = take (announced bs) bs ++ k.passed;
      tail = k.tail;
      chain = link (take (announced bs) bs) k.passed v k.chain;
      splits =
          sym (take-append-drop (announced bs) bs)
          ∙ ap (◌++◌ (take (announced bs) bs)) k.splits
          ∙ sym (append_assoc (take (announced bs) bs) k.passed k.tail);
      stuck = k.stuck;
    }

pub walk : (bs : Bytes) → Walk bs
walk bs = Walk-within (length bs) bs (omega arith)

pub walked_chain :
    (passed tail : Bytes) → IsChain passed → walked (passed ++ tail) ≡ length passed + walked tail
walked_chain _ tail end = omega arith
walked_chain _ tail (link rec more v c) =
    rw (append_assoc rec more tail, walked_link rec (more ++ tail) v)
      (omega (arith, walked_chain more tail c, length-append rec more))

pub set-append : (xs ys : Bytes) (i v : ℕ) → set (xs ++ ys) (length xs + i) v ≡ xs ++ set ys i v
set-append [] ys i v = ap (λ (k : ℕ). set ys k v) (omega arith)
set-append (x ∷ xs) ys i v =
    ap (λ (k : ℕ). set (x ∷ (xs ++ ys)) k v) (add.suc (length xs) i)
    ∙ ap (◌∷◌ x) (set-append xs ys i v)

pub get_or-append_right :
    (xs ys : Bytes) (i : ℕ) → get_or (xs ++ ys) (length xs + i) 0 ≡ get_or ys i 0
get_or-append_right [] ys i = ap (λ (k : ℕ). get_or ys k 0) (omega arith)
get_or-append_right (x ∷ xs) ys i =
    ap (λ (k : ℕ). get_or (x ∷ (xs ++ ys)) k 0) (add.suc (length xs) i)
    ∙ get_or-append_right xs ys i
