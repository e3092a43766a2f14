-- ===== src/Message/Order/Reads.antt =====
-- Each display order that is marshalled is unmarshalled again, with bytes behind it.
use protocol_tn.Base.{
  ℕ, suc, ◌+◌, ◌*◌, ◌/◌, ◌%◌, ◌^◌, ◌<◌, true, false, List, [], ◌∷◌, ◌++◌, Bytes, All, be16, length,
  drop, get_or, ◌≡◌, refl, sym, ap, ◌∙◌, ◌≢◌, arith, length-append, append_assoc, take-length,
  drop_prefix, ge→ltb,
}
use protocol_tn.Message.Result.{ok}
use protocol_tn.Message.Order.Code.{
  start_of_header, repeat_to_address, insert_cursor, set_buffer_address, start_field, is_order_code,
}
use protocol_tn.Message.Order.InsertCursor
use protocol_tn.Message.Order.RepeatToAddress
use protocol_tn.Message.Order.SetBufferAddress
use protocol_tn.Message.Order.StartField
use protocol_tn.Message.Order.StartOfHeader
use protocol_tn.Message.Order.{Order, soh, ic, ra, sba, sf, unmarshal_order, marshal_order}

-- The first byte of a control word is no display attribute.
pub record IsControlWord (w : ℕ) : Type 0 where
  pub fits : w < 2 ^ 16
  pub no_attribute : w / 256 / 32 % 8 ≢ 1

-- The codes are those of the classes. A repeated character is one character, the data of an address
-- holds no code of an order, and a field has the attribute and the length that it says.
abbrev pub IsOrder : Order → Type 0
IsOrder (soh o) = o.code ≡ start_of_header
IsOrder (ic o) = o.code ≡ insert_cursor
IsOrder (ra o) = (o.code ≡ repeat_to_address) × (length o.repeated_character ≡ 1)
IsOrder (sba o) =
    (o.code ≡ set_buffer_address) × All (λ b. is_order_code b ≡ false) o.repeated_character
IsOrder (sf o) =
    (o.code ≡ start_field)
    × All IsControlWord o.control_words
    × (o.attributes / 32 % 8 ≡ 1)
    × (o.field_length ≡ length o.repeated_character)
    × (length o.repeated_character < 2 ^ 16)

-- The end of the orders, or the code of the next.
abbrev pub AtOrder : Bytes → Type 0
AtOrder [] = Unit
AtOrder (b ∷ bs) = is_order_code b ≡ true

soh_read :
    (o : StartOfHeader.StartOfHeader) (rest : Bytes)
    → o.code ≡ start_of_header
    → StartOfHeader.unmarshal (StartOfHeader.marshal o ++ rest) ≡ ok (o, 9)
unfolding StartOfHeader.unmarshal StartOfHeader.marshal
soh_read o rest e = ground arith

ic_read :
    (o : InsertCursor.InsertCursor) (rest : Bytes)
    → o.code ≡ insert_cursor
    → InsertCursor.unmarshal (InsertCursor.marshal o ++ rest) ≡ ok (o, 3)
unfolding InsertCursor.unmarshal InsertCursor.marshal
ic_read o rest e = ground arith

singleton : (xs : Bytes) → length xs ≡ 1 → get_or xs 0 0 ∷ [] ≡ xs
singleton [] h = absurd (omega arith)
singleton (x ∷ []) h = refl
singleton (x ∷ y ∷ xs) h = absurd (omega arith)

ra_read :
    (o : RepeatToAddress.RepeatToAddress) (rest : Bytes)
    → o.code ≡ repeat_to_address
    → length o.repeated_character ≡ 1
    → RepeatToAddress.unmarshal (RepeatToAddress.marshal o ++ rest) ≡ ok (o, 4)
unfolding RepeatToAddress.unmarshal RepeatToAddress.marshal
ra_read o rest e l = ground (arith, singleton o.repeated_character l)

display_data-append :
    (xs rest : Bytes)
    → All (λ b. is_order_code b ≡ false) xs
    → AtOrder rest
    → SetBufferAddress.display_data (xs ++ rest) ≡ xs
unfolding SetBufferAddress.display_data
display_data-append [] [] h a = refl
display_data-append [] (b ∷ bs) h a = rw a
display_data-append (x ∷ xs) rest (h, hs) a = rw h (ap (◌∷◌ x) (display_data-append xs rest hs a))

sba_read :
    (o : SetBufferAddress.SetBufferAddress) (rest : Bytes)
    → IsOrder (sba o)
    → AtOrder rest
    → SetBufferAddress.unmarshal (SetBufferAddress.marshal o ++ rest)
      ≡ ok (o, 3 + length o.repeated_character)
unfolding SetBufferAddress.unmarshal SetBufferAddress.marshal
sba_read o rest (e, t) a = ground (arith, display_data-append o.repeated_character rest t a)

read_control_words-word_bytes :
    (ws : List ℕ) (a b : ℕ) (rest : Bytes)
    → All IsControlWord ws
    → a / 32 % 8 ≡ 1
    → StartField.read_control_words (StartField.word_bytes ws ++ (a ∷ b ∷ rest)) ≡ ws
unfolding StartField.read_control_words
read_control_words-word_bytes [] a b rest h e = ground arith
read_control_words-word_bytes (w ∷ ws) a b rest (h, hs) e =
    ground (arith, h.fits, h.no_attribute, read_control_words-word_bytes ws a b rest hs e)

length-word_bytes : (ws : List ℕ) → length (StartField.word_bytes ws) ≡ 2 * length ws
length-word_bytes [] = omega arith
length-word_bytes (w ∷ ws) = omega (arith, length-word_bytes ws)

unmarshal_rest_read :
    (n a hi lo : ℕ) (field : ℕ → ℕ → Bytes → StartField.StartField) (chars rest : Bytes)
    → be16 hi lo ≡ length chars
    → StartField.unmarshal_rest n field (a ∷ hi ∷ lo ∷ (chars ++ rest))
      ≡ ok (field a (length chars) chars, n + 3 + length chars)
unfolding StartField.unmarshal_rest
unmarshal_rest_read n a hi lo field chars rest h = ground (arith, take-length chars rest)

pub drop_three : (k a b c : ℕ) (xs : Bytes) → drop (3 + k) (a ∷ b ∷ c ∷ xs) ≡ drop k xs
drop_three k a b c xs = let e : 3 + k ≡ suc (suc (suc k)) = omega arith in rw e

-- A field of which the length is the number of its characters.
abbrev filled : StartField.StartField → StartField.StartField
filled o = record o { code = start_field; field_length = length o.repeated_character }

sf_read_filled :
    (o : StartField.StartField) (rest : Bytes)
    → IsOrder (sf o)
    → StartField.unmarshal (StartField.marshal o ++ rest)
      ≡ ok (filled o, 6 + 2 * length o.control_words + length o.repeated_character)
unfolding StartField.unmarshal StartField.marshal
sf_read_filled o rest (e, ws, a, l, f) =
    let n = length o.repeated_character in
    let hi = n % 2 ^ 16 / 256 % 256 in
    let lo = n % 2 ^ 16 % 256 in
    let words = StartField.word_bytes o.control_words in
    let tail = o.attributes ∷ hi ∷ lo ∷ (o.repeated_character ++ rest) in
    let r =
      read_control_words-word_bytes o.control_words o.attributes hi
        (lo ∷ (o.repeated_character ++ rest)) ws a in
    let d =
      drop_prefix (2 * length o.control_words) words tail
        (sym (length-word_bytes o.control_words)) in
    let t : be16 hi lo ≡ n = omega arith in
    let field : ℕ → ℕ → Bytes → StartField.StartField = λ attr len chars. record o {
      code = start_field;
      attributes = attr;
      field_length = len;
      repeated_character = chars;
    } in
    let size = length-append words tail in
    let cut =
      drop_three (2 * length o.control_words) start_field o.format_word1 o.format_word2
        (words ++ tail)
      ∙ d in
    rw (e, append_assoc words (o.attributes ∷ hi ∷ lo ∷ o.repeated_character) rest, r)
      (rw (ge→ltb (suc (suc (suc (length (words ++ tail))))) 5 (omega arith)) (
        ap (StartField.unmarshal_rest (3 + 2 * length o.control_words) field) cut
        ∙ unmarshal_rest_read _ o.attributes hi lo field o.repeated_character rest t
        ∙ ap (λ (k : ℕ). ok (filled o, k)) (omega arith)))

length-sf :
    (o : StartField.StartField)
    → length (StartField.marshal o) ≡ 6 + 2 * length o.control_words + length o.repeated_character
unfolding StartField.marshal
length-sf o =
    let n = length o.repeated_character % 2 ^ 16 in
    omega (
      arith,
      length-append (StartField.word_bytes o.control_words)
          (o.attributes ∷ n / 256 % 256 ∷ n % 256 ∷ o.repeated_character),
      length-word_bytes o.control_words,
    )

sf_read :
    (o : StartField.StartField) (rest : Bytes)
    → IsOrder (sf o)
    → StartField.unmarshal (StartField.marshal o ++ rest)
      ≡ ok (o, 6 + 2 * length o.control_words + length o.repeated_character)
sf_read o rest (e, ws, a, l, f) =
    sf_read_filled o rest (e, ws, a, l, f)
    ∙ ap (λ p. ok (p, 6 + 2 * length o.control_words + length o.repeated_character)) same_field
  where
    same_field : filled o ≡ o
    same_field = λ i. record o { code = sym e i; field_length = sym l i }

-- An order that is marshalled is unmarshalled again, and takes its own bytes, with an order or
-- nothing behind it.
pub unmarshal_order-marshal_order :
    (o : Order) (rest : Bytes)
    → IsOrder o
    → AtOrder rest
    → unmarshal_order (marshal_order o ++ rest) ≡ ok (o, length (marshal_order o))
unfolding unmarshal_order StartOfHeader.marshal InsertCursor.marshal RepeatToAddress.marshal
    SetBufferAddress.marshal StartField.marshal
unmarshal_order-marshal_order (soh o) rest h a = ground (arith, soh_read o rest h)
unmarshal_order-marshal_order (ic o) rest h a = ground (arith, ic_read o rest h)
unmarshal_order-marshal_order (ra o) rest h a = ground (arith, ra_read o rest h.0 h.1)
unmarshal_order-marshal_order (sba o) rest h a = ground (arith, sba_read o rest h a)
unmarshal_order-marshal_order (sf o) rest h a = ground (arith, sf_read o rest h, length-sf o)
