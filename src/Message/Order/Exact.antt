-- ===== src/Message/Order/Exact.antt =====
-- What an order was read from, it is marshalled to.
use protocol_tn.Base.{
  ℕ, zero, suc, ◌+◌, ◌*◌, ◌/◌, ◌%◌, ◌^◌, ◌≤◌, ◌<◌, [], ◌∷◌, ◌++◌, Bytes, IsByte, IsBytes, All-drop,
  be16, length, take, drop, get_or, ltb, ◌==◌, ◌≡◌, refl, sym, ap, ◌∙◌, inl, inr, arith, Bool-cases,
  subst, ltb→ge, ge→ltb,
}
use protocol_tn.Message.Result.{Result, ok, err}
use protocol_tn.Message.Order.Code.{start_field, is_order_code}
use protocol_tn.Message.Order.InsertCursor
use protocol_tn.Message.Order.RepeatToAddress
use protocol_tn.Message.Order.SetBufferAddress
use protocol_tn.Message.Order.StartField
use protocol_tn.Message.Order.StartOfHeader
use protocol_tn.Message.Order.{
  Order, soh, ic, ra, sba, sf, as_order, unmarshal_order, marshal_order,
}

-- A field has all the characters that its length says.
abbrev pub IsFull : Order → Type 0
IsFull (sf o) = o.field_length ≡ length o.repeated_character
IsFull _ = Unit

-- What has been read of `bs`, as an order, is marshalled to the bytes that were taken.
abbrev Rewrites {ℓ} : {A : Type ℓ} → (A → Order) → Bytes → Result (A × ℕ) → Type 0
Rewrites f bs (ok (o, n)) = IsFull (f o) → marshal_order (f o) ≡ take n bs
Rewrites f bs (err e) = Unit

-- The `n` bytes from index `i` on.
abbrev gets : ℕ → ℕ → Bytes → Bytes
gets i zero bs = []
gets i (suc n) bs = get_or bs i 0 ∷ gets (suc i) n bs

drop_get : (i : ℕ) (bs : Bytes) → i < length bs → drop i bs ≡ get_or bs i 0 ∷ drop (suc i) bs
drop_get i [] h = absurd (omega arith)
drop_get zero (b ∷ bs) h = refl
drop_get (suc i) (b ∷ bs) h = drop_get i bs (omega arith)

gets-take : (n i : ℕ) (bs : Bytes) → i + n ≤ length bs → gets i n bs ≡ take n (drop i bs)
gets-take zero i bs h = refl
gets-take (suc n) i bs h =
    ap (◌∷◌ (get_or bs i 0)) (gets-take n (suc i) bs (omega arith))
    ∙ sym (ap (take (suc n)) (drop_get i bs (omega arith)))

take_nil : (n : ℕ) → take {A = ℕ} n [] ≡ []
take_nil zero = refl
take_nil (suc n) = refl

take_add : (m n : ℕ) (xs : Bytes) → take (m + n) xs ≡ take m xs ++ take n (drop m xs)
take_add zero n xs = ap (λ k. take k xs) (omega arith)
take_add (suc m) n [] = take_nil (suc m + n) ∙ sym (take_nil n)
take_add (suc m) n (x ∷ xs) =
    let e : suc m + n ≡ suc (m + n) = omega arith in
    ap (λ k. take k (x ∷ xs)) e ∙ ap (◌∷◌ x) (take_add m n xs)

soh-Rewrites : (bs : Bytes) → Rewrites soh bs (StartOfHeader.unmarshal bs)
unfolding StartOfHeader.unmarshal StartOfHeader.marshal
soh-Rewrites bs = elim (Bool-cases (ltb (length bs) 9)) [
  | inl e ↦ rw e tt
  | inr e ↦ let g = gets-take 9 0 bs (ltb→ge (length bs) 9 e) in ground (arith, e, g)
]

ic-Rewrites : (bs : Bytes) → Rewrites ic bs (InsertCursor.unmarshal bs)
unfolding InsertCursor.unmarshal InsertCursor.marshal
ic-Rewrites bs = elim (Bool-cases (ltb (length bs) 3)) [
  | inl e ↦ rw e tt
  | inr e ↦ let g = gets-take 3 0 bs (ltb→ge (length bs) 3 e) in ground (arith, e, g)
]

ra-Rewrites : (bs : Bytes) → Rewrites ra bs (RepeatToAddress.unmarshal bs)
unfolding RepeatToAddress.unmarshal RepeatToAddress.marshal
ra-Rewrites bs = elim (Bool-cases (ltb (length bs) 4)) [
  | inl e ↦ rw e tt
  | inr e ↦ let g = gets-take 4 0 bs (ltb→ge (length bs) 4 e) in ground (arith, e, g)
]

display_data-take :
    (bs : Bytes)
    → SetBufferAddress.display_data bs ≡ take (length (SetBufferAddress.display_data bs)) bs
unfolding SetBufferAddress.display_data
display_data-take [] = refl
display_data-take (b ∷ bs) = elim (Bool-cases (is_order_code b)) [
  | inl e ↦ rw e refl
  | inr e ↦ rw e (ap (◌∷◌ b) (display_data-take bs))
]

sba-Rewrites : (bs : Bytes) → Rewrites sba bs (SetBufferAddress.unmarshal bs)
unfolding SetBufferAddress.unmarshal SetBufferAddress.marshal
sba-Rewrites [] = tt
sba-Rewrites (a ∷ []) = tt
sba-Rewrites (a ∷ b ∷ []) = tt
sba-Rewrites (a ∷ b ∷ c ∷ xs) =
    let chars = SetBufferAddress.display_data xs in
    let long = ge→ltb (suc (suc (suc (length xs)))) 3 (omega arith) in
    let t =
      ap (λ ys. a ∷ b ∷ c ∷ ys) (display_data-take xs)
      ∙ sym (take_add 3 (length chars) (a ∷ b ∷ c ∷ xs)) in
    ground (arith, long, t)

-- The control words are read from their bytes.
read_control_words-take :
    (bs : Bytes)
    → IsBytes bs
    → StartField.word_bytes (StartField.read_control_words bs)
      ≡ take (2 * length (StartField.read_control_words bs)) bs
unfolding StartField.read_control_words
read_control_words-take [] h = refl
read_control_words-take (a ∷ []) h = refl
read_control_words-take (a ∷ b ∷ bs) (ha, (hb, hs)) =
    let ws = StartField.read_control_words bs in
    let hi : be16 a b / 256 ≡ a = omega arith in
    let lo : be16 a b % 256 ≡ b = omega arith in
    elim (Bool-cases (a / 32 % 8 == 1)) [
      | inl e ↦ rw e refl
      | inr e ↦
          let d : 2 * suc (length ws) ≡ suc (suc (2 * length ws)) = omega arith in
          rw (e, hi, lo, d) (ap (λ ys. a ∷ b ∷ ys) (read_control_words-take bs hs))
    ]

-- The attribute, the length and the characters are read from their bytes.
unmarshal_rest-Rewrites :
    (n : ℕ) (bs : Bytes) (field : ℕ → ℕ → Bytes → StartField.StartField) (rest : Bytes)
    → IsBytes rest
    → drop n bs ≡ rest
    → ((at len : ℕ) (chars : Bytes)
        → StartField.marshal (field at len chars)
          ≡ take n bs
            ++ (at ∷ length chars % 2 ^ 16 / 256 % 256 ∷ length chars % 2 ^ 16 % 256 ∷ chars))
    → ((at len : ℕ) (chars : Bytes) → IsFull (sf (field at len chars)) → len ≡ length chars)
    → Rewrites sf bs (StartField.unmarshal_rest n field rest)
unfolding StartField.unmarshal_rest
unmarshal_rest-Rewrites n bs field [] h d m l = tt
unmarshal_rest-Rewrites n bs field (a ∷ []) h d m l = tt
unmarshal_rest-Rewrites n bs field (a ∷ b ∷ []) h d m l = tt
unmarshal_rest-Rewrites n bs field (a ∷ b ∷ c ∷ xs) (ha, (hb, (hc, hs))) d m l =
    let len = be16 b c in
    let chars = take len xs in
    let long = ge→ltb (suc (suc (suc (length xs)))) 3 (omega arith) in
    rw long (λ full.
      let same = l a len chars full in
      let hi : length chars % 2 ^ 16 / 256 % 256 ≡ b = omega arith in
      let lo : length chars % 2 ^ 16 % 256 ≡ c = omega arith in
      let behind : take (3 + length chars) (drop n bs) ≡ a ∷ b ∷ c ∷ chars =
        ap (take (3 + length chars)) d
        ∙ take_add 3 (length chars) (a ∷ b ∷ c ∷ xs)
        ∙ ap (λ k. a ∷ b ∷ c ∷ take k xs) (sym same) in
      let all : take (n + 3 + length chars) bs ≡ take n bs ++ (a ∷ b ∷ c ∷ chars) =
        ap (λ k. take k bs) (omega arith)
        ∙ take_add n (3 + length chars) bs
        ∙ ap (◌++◌ (take n bs)) behind in
      m a len chars ∙ rw (hi, lo) (sym all))

sf-Rewrites : (bs : Bytes) → IsBytes bs → Rewrites sf bs (StartField.unmarshal bs)
unfolding StartField.unmarshal StartField.marshal
sf-Rewrites [] h = tt
sf-Rewrites (a ∷ []) h = tt
sf-Rewrites (a ∷ b ∷ []) h = tt
sf-Rewrites (a ∷ b ∷ c ∷ xs) (ha, (hb, (hc, hs))) =
    let bs = a ∷ b ∷ c ∷ xs in
    let words = StartField.read_control_words xs in
    let k = 2 * length words in
    let field : ℕ → ℕ → Bytes → StartField.StartField = λ at len chars. record {
      code = a;
      format_word1 = b;
      format_word2 = c;
      control_words = words;
      attributes = at;
      field_length = len;
      repeated_character = chars;
    } in
    let front : take (3 + k) bs ≡ a ∷ b ∷ c ∷ StartField.word_bytes words =
      take_add 3 k bs ∙ ap (λ ys. a ∷ b ∷ c ∷ ys) (sym (read_control_words-take xs hs)) in
    let r =
      unmarshal_rest-Rewrites (3 + k) bs field (drop (3 + k) bs)
        (All-drop IsByte (3 + k) bs (ha, (hb, (hc, hs)))) refl
        (λ at len chars.
          ap
            (λ z.
              z ++ (at ∷ length chars % 2 ^ 16 / 256 % 256 ∷ length chars % 2 ^ 16 % 256 ∷ chars))
            (sym front))
        (λ at len chars full. full) in
    elim (Bool-cases (ltb (length bs) 5)) [
      | inl e ↦ rw e tt
      | inr e ↦ elim (Bool-cases (a == start_field)) [
        | inl code ↦ rw (e, code) r
        | inr code ↦ rw (e, code) tt
      ]
    ]

as_order-Rewrites {ℓ} :
    {A : Type ℓ} (f : A → Order) (bs : Bytes) (r : Result (A × ℕ))
    → Rewrites f bs r
    → Rewrites (λ o. o) bs (as_order f r)
as_order-Rewrites f bs (ok (o, n)) h = h
as_order-Rewrites f bs (err e) h = tt

unmarshal_order-Rewrites : (bs : Bytes) → IsBytes bs → Rewrites (λ o. o) bs (unmarshal_order bs)
unfolding unmarshal_order
unmarshal_order-Rewrites [] h = tt
unmarshal_order-Rewrites (b ∷ bs) h = ground (
  arith,
  as_order-Rewrites soh _ _ (soh-Rewrites (b ∷ bs)),
  as_order-Rewrites ra _ _ (ra-Rewrites (b ∷ bs)),
  as_order-Rewrites ic _ _ (ic-Rewrites (b ∷ bs)),
  as_order-Rewrites sba _ _ (sba-Rewrites (b ∷ bs)),
  as_order-Rewrites sf _ _ (sf-Rewrites (b ∷ bs) h),
)

-- An order that has been read from a buffer of bytes is marshalled to just the bytes that were taken
-- for it. A field has to have all the characters that its length says.
pub marshal_order-unmarshal_order :
    (bs : Bytes) (o : Order) (n : ℕ)
    → IsBytes bs
    → unmarshal_order bs ≡ ok (o, n)
    → IsFull o
    → marshal_order o ≡ take n bs
marshal_order-unmarshal_order bs o n h e f =
    subst (Rewrites (λ o. o) bs) e (unmarshal_order-Rewrites bs h) f
