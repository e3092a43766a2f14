-- ===== src/IbmRSeed/Evp.antt =====
-- IBMRSeed::desEcbEncrypt and IBMRSeed::desCbcEncrypt of tn5250/client/ibmrseed.cpp, from the check of
-- their arguments on: the calls of OpenSSL, with the paths on which one of them fails.
use protocol_tn.Base.{
  ℕ, suc, ◌+◌, ◌-◌, ◌%◌, Bool, true, false, not, Option, none, some, List, [], ◌∷◌, ◌++◌, Bytes,
  length, take, set, replicate, if◌then◌else◌, ◌≡◌, refl, ◌∙◌, inl, inr, arith, Bool-cases,
  length-append, length-take, length-replicate,
}
use protocol_tn.IbmRSeed.{Des}
use protocol_tn.IbmRSeed.Size.{KeepsSize}

pub data Mode : Type 0 where
  ecb_mode : Mode
  cbc_mode : Mode

-- What OpenSSL answers: whether there is a context, and for a key, an initial vector and a text
-- whether the cipher can be set, what EncryptUpdate and EncryptFinal write, and none where they fail.
pub record Evp : Type 0 where
  pub has_context : Bool
  pub init : Mode → Bytes → Bytes → Bool
  pub update : Mode → Bytes → Bytes → Bytes → Option Bytes
  pub final : Mode → Bytes → Bytes → Bytes → Option Bytes

pub data EvpCall : Type 0 where
  load_legacy : EvpCall
  load_default : EvpCall
  context_new : EvpCall
  encrypt_init : EvpCall
  set_padding : EvpCall
  encrypt_update : EvpCall
  encrypt_final : EvpCall
  context_free : EvpCall

-- The initializer of a static local runs once. What it returns is not looked at.
abbrev pub ensure_legacy_provider : Bool → List EvpCall
ensure_legacy_provider loaded = if loaded then [] else load_legacy ∷ load_default ∷ []

-- Bytes written into a buffer from index `i` on.
abbrev pub write : ℕ → Bytes → Bytes → Bytes
write i [] out = out
write i (b ∷ bs) out = write (suc i) bs (set out i b)

-- std::vector::resize.
abbrev pub resize : ℕ → Bytes → Bytes
resize n out = take n out ++ replicate (n - length out) 0

-- The end, where all calls succeed, on the vector `out` of `capacity` zeros.
abbrev pub output : ℕ → Bytes → Bytes → Bytes
output capacity written last =
    resize (length written + length last)
      (write (length written) last (write 0 written (replicate capacity 0)))

abbrev pub after_update : Option Bytes → ℕ → Bytes → List EvpCall × Bytes
after_update none capacity written = (encrypt_final ∷ context_free ∷ [], [])
after_update (some last) capacity written =
    (encrypt_final ∷ context_free ∷ [], output capacity written last)

abbrev pub after_padding : Option Bytes → Option Bytes → ℕ → List EvpCall × Bytes
after_padding none final capacity = (encrypt_update ∷ context_free ∷ [], [])
after_padding (some written) final capacity =
    let rest = after_update final capacity written in (encrypt_update ∷ rest.0, rest.1)

-- Both methods behind the loading of the providers: the calls made, and the vector returned.
unfoldable pub encrypt : Evp → Mode → ℕ → Bytes → Bytes → Bytes → List EvpCall × Bytes
encrypt evp mode capacity key iv plaintext =
    let rest =
      after_padding (evp.update mode key iv plaintext) (evp.final mode key iv plaintext) capacity in
    if not evp.has_context
    then (context_new ∷ [], [])
    else if not (evp.init mode key iv)
    then (context_new ∷ encrypt_init ∷ context_free ∷ [], [])
    else (context_new ∷ encrypt_init ∷ set_padding ∷ rest.0, rest.1)

unfoldable pub ecb_encrypt : Evp → Bool → Bytes → Bytes → List EvpCall × Bytes
ecb_encrypt evp loaded key plaintext =
    let done = encrypt evp ecb_mode 16 key [] plaintext in
    (ensure_legacy_provider loaded ++ done.0, done.1)

unfoldable pub cbc_encrypt : Evp → Bool → Bytes → Bytes → Bytes → List EvpCall × Bytes
cbc_encrypt evp loaded key iv plaintext =
    let done = encrypt evp cbc_mode (length plaintext + 16) key iv plaintext in
    (ensure_legacy_provider loaded ++ done.0, done.1)

-- DES by these calls.
abbrev pub des_of : Evp → Des
des_of evp = record {
  ecb = λ key text. (ecb_encrypt evp true key text).1;
  cbc = λ key iv text. (cbc_encrypt evp true key iv text).1;
}

-- The life of the context.
pub data Context : Type 0 where
  absent : Context
  live : Context
  freed : Context
  misused : Context

-- A context may be used and freed only while it lives, and only one is made.
abbrev pub use_context : Context → EvpCall → Context
use_context c load_legacy = c
use_context c load_default = c
use_context absent context_new = live
use_context live context_free = freed
use_context live encrypt_init = live
use_context live set_padding = live
use_context live encrypt_update = live
use_context live encrypt_final = live
use_context _ _ = misused

-- Where there is no context to be had, context_new leaves none.
abbrev pub use_call : Bool → Context → EvpCall → Context
use_call true c e = use_context c e
use_call false absent context_new = absent
use_call false c e = use_context c e

abbrev pub use_all : Bool → Context → List EvpCall → Context
use_all has c [] = c
use_all has c (e ∷ es) = use_all has (use_call has c e) es

encrypt-use_all :
    (evp : Evp) (mode : Mode) (capacity : ℕ) (key iv text : Bytes)
    → use_all evp.has_context absent (encrypt evp mode capacity key iv text).0
      ≡ (if evp.has_context then freed else absent)
unfolding encrypt
encrypt-use_all evp mode capacity key iv text = elim (Bool-cases evp.has_context) [
  | inr e ↦ rw e refl
  | inl e ↦ elim (Bool-cases (evp.init mode key iv)) [
    | inr f ↦ rw (e, f) refl
    | inl f ↦ rw (e, f) (went (evp.update mode key iv text) (evp.final mode key iv text))
  ]
]
  where
    went :
        (u f : Option Bytes)
        → use_all true live (set_padding ∷ (after_padding u f capacity).0) ≡ freed
    went none f = refl
    went (some b) none = refl
    went (some b) (some c) = refl

ensure_legacy_provider-use_all :
    (has loaded : Bool) (es : List EvpCall)
    → use_all has absent (ensure_legacy_provider loaded ++ es) ≡ use_all has absent es
ensure_legacy_provider-use_all has true es = refl
ensure_legacy_provider-use_all true false es = refl
ensure_legacy_provider-use_all false false es = refl

-- On every path of either method, whichever of OpenSSL's calls fail, a context that was made is used only
-- while it lives and is freed once at the end, and nothing is done with one that was not.
pub des_encrypt-use_all :
    (evp : Evp) (loaded : Bool) (key iv text : Bytes)
    → (use_all evp.has_context absent (ecb_encrypt evp loaded key text).0
        ≡ (if evp.has_context then freed else absent))
      × (use_all evp.has_context absent (cbc_encrypt evp loaded key iv text).0
          ≡ (if evp.has_context then freed else absent))
unfolding ecb_encrypt cbc_encrypt
des_encrypt-use_all evp loaded key iv text = (
  ensure_legacy_provider-use_all evp.has_context loaded _
      ∙ encrypt-use_all evp ecb_mode 16 key [] text,
  ensure_legacy_provider-use_all evp.has_context loaded _
      ∙ encrypt-use_all evp cbc_mode (length text + 16) key iv text,
)

-- What is documented of the calls where OpenSSL has DES, without padding: none fails for a key of
-- eight bytes and whole blocks, EncryptUpdate writes as many bytes as it is given, and EncryptFinal none.
pub record IsAvailable (evp : Evp) : Type 0 where
  pub context : evp.has_context ≡ true
  pub inits : (mode : Mode) (key iv : Bytes) → length key ≡ 8 → evp.init mode key iv ≡ true
  pub updates :
      (mode : Mode) (key iv text : Bytes)
      → length key ≡ 8
      → length text % 8 ≡ 0
      → (bs : Bytes) × (evp.update mode key iv text ≡ some bs) × (length bs ≡ length text)
  pub finishes :
      (mode : Mode) (key iv text : Bytes)
      → length key ≡ 8
      → length text % 8 ≡ 0
      → evp.final mode key iv text ≡ some []

length-resize : (n : ℕ) (out : Bytes) → length (resize n out) ≡ n
length-resize n out = omega (
  arith,
  length-append (take n out) (replicate (n - length out) 0),
  length-take n out,
  length-replicate {A = ℕ} (n - length out) 0,
)

length-encrypt :
    (evp : Evp) (mode : Mode) (capacity : ℕ) (key iv text : Bytes)
    → IsAvailable evp
    → length key ≡ 8
    → length text % 8 ≡ 0
    → length (encrypt evp mode capacity key iv text).1 ≡ length text
unfolding encrypt
length-encrypt evp mode capacity key iv text v h k =
    let (bs, u, l) = v.updates mode key iv text h k in
    rw (v.context, v.inits mode key iv h, u, v.finishes mode key iv text h k)
      (length-resize (length bs + 0) (write (length bs) [] (write 0 bs (replicate capacity 0)))
        ∙ omega arith)

-- DES by OpenSSL's calls keeps the size of the text, where OpenSSL has DES.
pub des_of-KeepsSize : (evp : Evp) → IsAvailable evp → KeepsSize (des_of evp)
unfolding ecb_encrypt cbc_encrypt
des_of-KeepsSize evp v = record {
  ecb_size = λ key text h l. length-encrypt evp ecb_mode 16 key [] text v h (omega arith);
  cbc_size = λ key iv text h l m. length-encrypt evp cbc_mode (length text + 16) key iv text v h m;
}
