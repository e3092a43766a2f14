-- ===== src/Message/Record/Errors.antt =====
-- What Message::unmarshal reports: the bytes read, and the error of a record that is cut off.
use protocol_tn.Base.{
  ℕ, zero, suc, ◌+◌, ◌-◌, ◌≤◌, ◌<◌, [], ◌∷◌, Bytes, length, take, drop, get_or, ltb, if◌then◌else◌,
  ◌≡◌, refl, ap, ◌∙◌, inl, inr, arith, Bool-cases, length-take, length-drop, subst, ltb→lt, ltb→ge,
  lt→ltb, ge→ltb,
}
use protocol_tn.Message.Result.{
  Result, ok, err, fixed_header_too_short, variable_length_missing, variable_header_cut,
}
use protocol_tn.Message.Header
use protocol_tn.Message.Record.{
  Message, written_length, unmarshal, with_header, unmarshal_variable, unmarshal_commands, marshal,
}
use protocol_tn.Message.Record.Loop.{Reports, unmarshal_commands-Reports}
use protocol_tn.Message.Record.RoundTrip.{
  IsMessage, record_bytes, marshal-fits, length-record_bytes, four_le_written_length,
  written_length-variable_length,
}

unmarshal_variable-Reports :
    (bs : Bytes) (m : Message) (k : ℕ) → Reports (length bs) (unmarshal_variable bs k m)
unfolding unmarshal_variable
unmarshal_variable-Reports bs m k =
    let len = get_or bs k 0 in
    let described : Message = record m {
      variable_length = len;
      sna_flags = get_or bs (k + 1) 0;
      variable_reserved = get_or bs (k + 2) 0;
      opcode = get_or bs (k + 3) 0;
    } in
    let rest = drop (k + len) bs in
    let d = length-drop (k + len) bs in
    elim (Bool-cases (ltb (length bs) (k + len))) [
      | inl cut ↦ ground (arith, cut)
      | inr here ↦
          let long = ltb→ge (length bs) (k + len) here in
          let e : (k + len) + length rest ≡ length bs = omega arith in
          let r =
            subst (λ z. Reports z (unmarshal_commands (length bs) (k + len) rest described)) e
              (unmarshal_commands-Reports (length bs) (k + len) rest described (omega arith)) in
          ground (arith, here, r)
    ]

with_header-Reports :
    (bs : Bytes) (m : Message) (r : Result (Header.Header × ℕ))
    → Reports (length bs) (with_header bs m r)
with_header-Reports bs m (ok (h, k)) = unmarshal_variable-Reports bs (record m { header = h }) k
with_header-Reports bs m (err e) = tt

-- Where unmarshalling a buffer succeeds, the number of bytes read is the size of the buffer, whatever
-- the length fields say: the loop over the commands ends at the end of the buffer or with an error.
pub unmarshal-Reports : (bs : Bytes) (m : Message) → Reports (length bs) (unmarshal bs m)
unfolding unmarshal
unmarshal-Reports bs m = with_header-Reports bs m (Header.unmarshal bs)

too_short :
    (bs : Bytes) (m : Message) → length bs < 6 → (unmarshal bs m).1 ≡ err fixed_header_too_short
unfolding unmarshal Header.unmarshal
too_short bs m h = rw (lt→ltb (length bs) 6 h) refl

no_length :
    (a b c d e f : ℕ) (m : Message)
    → (unmarshal (a ∷ b ∷ c ∷ d ∷ e ∷ f ∷ []) m).1 ≡ err variable_length_missing
unfolding unmarshal Header.unmarshal unmarshal_variable
no_length a b c d e f m = refl

header_cut :
    (a b c d e f v : ℕ) (xs : Bytes) (m : Message)
    → 4 ≤ v
    → 7 + length xs < 6 + v
    → (unmarshal (a ∷ b ∷ c ∷ d ∷ e ∷ f ∷ v ∷ xs) m).1 ≡ err variable_header_cut
unfolding unmarshal Header.unmarshal unmarshal_variable
header_cut a b c d e f v xs m four cut = ground arith

-- The error of a record cut off behind `n` bytes.
abbrev pub cut_error : ℕ → Result ℕ
cut_error n = err (
    if ltb n 6
    then fixed_header_too_short
    else if ltb n 7
    then variable_length_missing
    else variable_header_cut)

take-behind :
    (j a b c d e f v : ℕ) (xs : Bytes) (m : Message)
    → 4 ≤ v
    → j < v
    → v ≤ suc (length xs)
    → (unmarshal (a ∷ b ∷ c ∷ d ∷ e ∷ f ∷ take j (v ∷ xs)) m).1 ≡ cut_error (6 + j)
take-behind zero a b c d e f v xs m h l k = no_length a b c d e f m
take-behind (suc j) a b c d e f v xs m h l k =
    let t = length-take j xs in
    rw (ge→ltb (6 + suc j) 6 (omega arith), ge→ltb (6 + suc j) 7 (omega arith))
      (header_cut a b c d e f v (take j xs) m h (omega arith))

take-cut :
    (n a b c d e f v : ℕ) (xs : Bytes) (m : Message)
    → 4 ≤ v
    → n < 6 + v
    → v ≤ suc (length xs)
    → (unmarshal (take n (a ∷ b ∷ c ∷ d ∷ e ∷ f ∷ v ∷ xs)) m).1 ≡ cut_error n
take-cut n a b c d e f v xs m h l k = elim (Bool-cases (ltb n 6)) [
  | inl s ↦
      let t = length-take n (a ∷ b ∷ c ∷ d ∷ e ∷ f ∷ v ∷ xs) in
      let less = ltb→lt n 6 s in
      rw s (too_short (take n (a ∷ b ∷ c ∷ d ∷ e ∷ f ∷ v ∷ xs)) m (omega arith))
  | inr s ↦
      let more = ltb→ge n 6 s in
      let j = n - 6 in
      let e1 : suc (suc (suc (suc (suc (suc j))))) ≡ n = omega arith in
      let e2 : 6 + j ≡ n = omega arith in
      subst (λ z. (unmarshal (take z (a ∷ b ∷ c ∷ d ∷ e ∷ f ∷ v ∷ xs)) m).1 ≡ cut_error n) e1
        (take-behind j a b c d e f v xs m h (omega arith) k ∙ ap cut_error e2)
]

-- The bytes of a well-formed message, cut off in front of the end of the variable header, are an
-- error, which says whether the fixed header, the length byte or the rest of the variable header is
-- missing.
pub unmarshal-take :
    (m n : Message) (k : ℕ)
    → IsMessage m
    → k < 6 + m.variable_length
    → (bs : Bytes) × (marshal m ≡ ok bs) × ((unmarshal (take k bs) n).1 ≡ cut_error k)
unmarshal-take m n k h l =
    let w = written_length-variable_length m h.has_fields in
    let size = length-record_bytes m in
    (
      record_bytes m,
      marshal-fits m h,
      take-cut k _ _ _ _ _ _ (written_length m) _ n (four_le_written_length m) (omega arith)
          (omega arith),
    )
