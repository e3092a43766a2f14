-- ===== src/Message/Order/StartField.antt =====
-- orders/order_sf_start_field.h and .cpp under tn5250/message/command/order.
use protocol_tn.Base.{
  ℕ, ◌+◌, ◌*◌, ◌/◌, ◌%◌, ◌^◌, not, List, [], ◌∷◌, ◌++◌, Bytes, be16, is_empty, length, take, drop,
  get_or, ltb, ◌==◌, if◌then◌else◌,
}
use protocol_tn.Message.Result.{
  Result, ok, err, order_too_short, invalid_order_code, truncated_attribute, truncated_length,
}
use protocol_tn.Message.Order.Code.{start_field}

pub record StartField : Type 0 where
  pub code : ℕ
  pub format_word1 : ℕ
  pub format_word2 : ℕ
  pub control_words : List ℕ
  pub attributes : ℕ
  pub field_length : ℕ
  pub repeated_character : Bytes

-- The 16-bit control words in front of a byte whose top bits are 001, or of the last byte.
unfoldable pub read_control_words : Bytes → List ℕ
read_control_words [] = []
read_control_words (a ∷ []) = []
read_control_words (a ∷ b ∷ bs) =
    if not (a / 32 % 8 == 1) then be16 a b ∷ read_control_words bs else []

-- From the attribute byte on, where `n` bytes have been read.
unfoldable pub unmarshal_rest : ℕ → (ℕ → ℕ → Bytes → StartField) → Bytes → Result (StartField × ℕ)
unmarshal_rest n field rest =
    let len = be16 (get_or rest 1 0) (get_or rest 2 0) in
    let chars = take len (drop 3 rest) in
    if is_empty rest
    then err truncated_attribute
    else if ltb (length rest) 3
    then err truncated_length
    else ok (field (get_or rest 0 0) len chars, n + 3 + length chars)

unfoldable pub unmarshal : Bytes → Result (StartField × ℕ)
unmarshal buffer =
    let words = read_control_words (drop 3 buffer) in
    let field : ℕ → ℕ → Bytes → StartField = λ attr len chars. record {
      code = get_or buffer 0 0;
      format_word1 = get_or buffer 1 0;
      format_word2 = get_or buffer 2 0;
      control_words = words;
      attributes = attr;
      field_length = len;
      repeated_character = chars;
    } in
    if ltb (length buffer) 5
    then err (order_too_short start_field)
    else if not (get_or buffer 0 0 == start_field)
    then err (invalid_order_code start_field)
    else unmarshal_rest (3 + 2 * length words) field (drop (3 + 2 * length words) buffer)

abbrev pub word_bytes : List ℕ → Bytes
word_bytes [] = []
word_bytes (w ∷ ws) = w / 256 ∷ w % 256 ∷ word_bytes ws

-- The length written is the number of characters, as a uint16_t.
unfoldable pub marshal : StartField → Bytes
marshal o =
    let real_length = length o.repeated_character % 2 ^ 16 in
    o.code
    ∷ o.format_word1
    ∷ o.format_word2
    ∷ (word_bytes o.control_words
        ++ (o.attributes ∷ real_length / 256 % 256 ∷ real_length % 256 ∷ o.repeated_character))
