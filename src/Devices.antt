-- ===== src/Devices.antt =====
-- tn5250/devices: devices.h and devices.cpp. A std::string is the list of its ASCII codes.
use protocol_tn.Base.{
  ℕ, suc, ◌-◌, Bool, true, false, not, ◌&&◌, Option, none, some, List, [], ◌∷◌, map, Bytes, All,
  length, drop, get_or, leb, ◌==◌, if◌then◌else◌, ◌≡◌, refl, ap, ap₂, inl, inr, ◌⊎◌, arith,
  Bool-cases,
}

pub record Device : Type 0 where
  pub model : Bytes
  pub lines : ℕ
  pub columns : ℕ
  pub supports_colors : Bool
  pub supports_dbcs : Bool

abbrev device : Bytes → ℕ → ℕ → Bool → Bool → Device
device model lines columns colors dbcs = record {
  model = model;
  lines = lines;
  columns = columns;
  supports_colors = colors;
  supports_dbcs = dbcs;
}

abbrev pub supported_devices : List Device
supported_devices =
    device (b'I' ∷ b'B' ∷ b'M' ∷ b'-' ∷ b'5' ∷ b'5' ∷ b'5' ∷ b'5' ∷ b'-' ∷ b'C' ∷ b'0' ∷ b'1' ∷ [])
      24 80 true true
    ∷ device
        (b'I' ∷ b'B' ∷ b'M' ∷ b'-' ∷ b'5' ∷ b'5' ∷ b'5' ∷ b'5' ∷ b'-' ∷ b'B' ∷ b'0' ∷ b'1' ∷ []) 24
        80 false true
    ∷ device (b'I' ∷ b'B' ∷ b'M' ∷ b'-' ∷ b'3' ∷ b'4' ∷ b'7' ∷ b'7' ∷ b'-' ∷ b'F' ∷ b'C' ∷ []) 27
        132 true false
    ∷ device (b'I' ∷ b'B' ∷ b'M' ∷ b'-' ∷ b'3' ∷ b'4' ∷ b'7' ∷ b'7' ∷ b'-' ∷ b'F' ∷ b'G' ∷ []) 27
        132 false false
    ∷ device (b'I' ∷ b'B' ∷ b'M' ∷ b'-' ∷ b'3' ∷ b'1' ∷ b'8' ∷ b'0' ∷ b'-' ∷ b'2' ∷ []) 27 132 false
        false
    ∷ device (b'I' ∷ b'B' ∷ b'M' ∷ b'-' ∷ b'3' ∷ b'1' ∷ b'7' ∷ b'9' ∷ b'-' ∷ b'2' ∷ []) 24 80 true
        false
    ∷ device (b'I' ∷ b'B' ∷ b'M' ∷ b'-' ∷ b'3' ∷ b'1' ∷ b'9' ∷ b'6' ∷ b'-' ∷ b'A' ∷ b'1' ∷ []) 24 80
        false false
    ∷ device (b'I' ∷ b'B' ∷ b'M' ∷ b'-' ∷ b'5' ∷ b'2' ∷ b'9' ∷ b'2' ∷ b'-' ∷ b'2' ∷ []) 24 80 true
        false
    ∷ device (b'I' ∷ b'B' ∷ b'M' ∷ b'-' ∷ b'5' ∷ b'2' ∷ b'9' ∷ b'1' ∷ b'-' ∷ b'1' ∷ []) 24 80 false
        false
    ∷ device (b'I' ∷ b'B' ∷ b'M' ∷ b'-' ∷ b'5' ∷ b'2' ∷ b'5' ∷ b'1' ∷ b'-' ∷ b'1' ∷ b'1' ∷ []) 24 80
        false false
    ∷ []

-- std::toupper of the C locale.
unfoldable pub to_upper : ℕ → ℕ
to_upper c = if leb 0x61 c && leb c 0x7A then c - 32 else c

-- The sizes are compared, and then the characters up to the first that differs.
unfoldable pub same_model : Bytes → Bytes → Bool
same_model [] [] = true
same_model [] (y ∷ ys) = false
same_model (x ∷ xs) [] = false
same_model (x ∷ xs) (y ∷ ys) =
    let rest = same_model xs ys in if not (to_upper x == to_upper y) then false else rest

unfoldable pub find_device : Bytes → List Device → Option Device
find_device model [] = none
find_device model (d ∷ ds) =
    let rest = find_device model ds in if same_model d.model model then some d else rest

unfoldable pub find_supported_device : Bytes → Option Device
find_supported_device model = find_device model supported_devices

-- Equal but for the case of letters.
abbrev pub SameLetters : Bytes → Bytes → Type 0
SameLetters xs ys = map to_upper xs ≡ map to_upper ys

same_model-SameLetters : (xs ys : Bytes) → same_model xs ys ≡ true → SameLetters xs ys
unfolding same_model
same_model-SameLetters [] [] h = refl
same_model-SameLetters [] (y ∷ ys) h = ground arith
same_model-SameLetters (x ∷ xs) [] h = ground arith
same_model-SameLetters (x ∷ xs) (y ∷ ys) h =
    let same : (to_upper x ≡ to_upper y) × (same_model xs ys ≡ true) = ground arith in
    ap₂ (λ c cs. c ∷ cs) same.0 (same_model-SameLetters xs ys same.1)

upper_parts : (c d : ℕ) (cs ds : Bytes) → c ∷ cs ≡ d ∷ ds → (c ≡ d) × (cs ≡ ds)
upper_parts c d cs ds e = (ap (λ bs. get_or bs 0 0) e, ap (drop 1) e)

SameLetters-same_model : (xs ys : Bytes) → SameLetters xs ys → same_model xs ys ≡ true
unfolding same_model
SameLetters-same_model [] [] h = refl
SameLetters-same_model [] (y ∷ ys) h =
    absurd (let e : 0 ≡ suc (length (map to_upper ys)) = ap length h in omega arith)
SameLetters-same_model (x ∷ xs) [] h =
    absurd (let e : suc (length (map to_upper xs)) ≡ 0 = ap length h in omega arith)
SameLetters-same_model (x ∷ xs) (y ∷ ys) h =
    let (p, q) = upper_parts (to_upper x) (to_upper y) (map to_upper xs) (map to_upper ys) h in
    let rest = SameLetters-same_model xs ys q in ground (arith, p, rest)

abbrev pub Has : Device → List Device → Type 0
Has d [] = ⊥
Has d (x ∷ xs) = (d ≡ x) ⊎ Has d xs

-- A device of the list with the letters of the name, or none has them.
abbrev pub Answers : Bytes → List Device → Option Device → Type 0
Answers model ds (some d) = Has d ds × SameLetters d.model model
Answers model ds none = All (λ d. ¬ SameLetters d.model model) ds

Answers-more :
    (model : Bytes) (x : Device) (ds : List Device) (r : Option Device)
    → ¬ SameLetters x.model model
    → Answers model ds r
    → Answers model (x ∷ ds) r
Answers-more model x ds (some d) n (h, s) = (inr h, s)
Answers-more model x ds none n h = (n, h)

find_device-Answers : (model : Bytes) (ds : List Device) → Answers model ds (find_device model ds)
unfolding find_device
find_device-Answers model [] = tt
find_device-Answers model (d ∷ ds) = elim (Bool-cases (same_model d.model model)) [
  | inl e ↦ rw e (inl refl, same_model-SameLetters d.model model e)
  | inr e ↦
      let differ : ¬ SameLetters d.model model =
        λ s. let t = SameLetters-same_model d.model model s in ground (arith, e, t) in
      rw e (Answers-more model d ds (find_device model ds) differ (find_device-Answers model ds))
]

-- The lookup gives a supported device whose model is the name but for the case of letters, and gives
-- none only where no supported device has such a model.
pub find_supported_device-Answers :
    (model : Bytes) → Answers model supported_devices (find_supported_device model)
unfolding find_supported_device
find_supported_device-Answers model = find_device-Answers model supported_devices
