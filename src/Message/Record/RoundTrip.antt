-- ===== src/Message/Record/RoundTrip.antt =====
-- A message that is marshalled is unmarshalled again.
use protocol_tn.Base.{
  ℕ, suc, ◌+◌, ◌-◌, ◌/◌, ◌%◌, ◌^◌, ◌≤◌, ◌<◌, false, ◌∷◌, ◌++◌, Bytes, length, drop, replicate, ltb,
  leb, if◌then◌else◌, ◌≡◌, refl, sym, ap, ◌∙◌, inl, inr, arith, Bool-cases, length-append,
  length-replicate, drop_prefix, ltb→ge, ge→ltb,
}
use protocol_tn.Utils.Endian.{be16_read}
use protocol_tn.Message.Result.{ok, err, record_too_large}
use protocol_tn.Message.Header
use protocol_tn.Message.Record.{
  Message, written_length, unmarshal, unmarshal_variable, marshal, marshal_record,
}
use protocol_tn.Message.Record.Loop.{
  command_bytes, AreCommands, marshal_commands-command_bytes, unmarshal_commands-command_bytes,
  unmarshal_commands-fuel,
}

-- The size of the record, with the length byte that is written.
abbrev pub record_size : Message → ℕ
record_size m = 6 + written_length m + length (command_bytes m.commands)

-- The bytes of the record.
abbrev pub record_bytes : Message → Bytes
record_bytes m =
    let total = record_size m in
    let k = written_length m - 4 in
    total / 2 ^ 8 % 2 ^ 8
    ∷ total % 2 ^ 8
    ∷ m.header.record_type / 2 ^ 8 % 2 ^ 8
    ∷ m.header.record_type % 2 ^ 8
    ∷ m.header.fixed_reserved / 2 ^ 8 % 2 ^ 8
    ∷ m.header.fixed_reserved % 2 ^ 8
    ∷ written_length m
    ∷ m.sna_flags
    ∷ m.variable_reserved
    ∷ m.opcode
    ∷ (replicate k 0 ++ command_bytes m.commands)

marshal_record-payload :
    (m : Message) (payload : Bytes)
    → payload ≡ command_bytes m.commands
    → marshal_record m payload
      ≡ (if ltb 0xFFFF (record_size m) then err record_too_large else ok (record_bytes m))
unfolding marshal_record
marshal_record-payload m payload e = elim (Bool-cases (ltb 0xFFFF (record_size m))) [
  | inl big ↦ rw (e, big) refl
  | inr fits ↦
      let small = ltb→ge 0xFFFF (record_size m) fits in
      let s : record_size m % 2 ^ 16 ≡ record_size m = omega arith in rw (e, fits, s) refl
]

-- Marshalling gives the record where its size fits the length field, and the error where it does
-- not.
pub marshal-record_bytes :
    (m : Message)
    → marshal m ≡ (if ltb 0xFFFF (record_size m) then err record_too_large else ok (record_bytes m))
unfolding marshal
marshal-record_bytes m =
    rw (marshal_commands-command_bytes m.commands)
      (marshal_record-payload m (command_bytes m.commands) refl)

-- The numbers fit their fields, the length fields are those of the commands, the commands and their
-- orders are such as can be read back, and a display write is the last command.
pub record IsMessage (m : Message) : Type 0 where
  pub type_fits : m.header.record_type < 2 ^ 16
  pub reserved_fits : m.header.fixed_reserved < 2 ^ 16
  pub has_fields : 4 ≤ m.variable_length
  pub length_is_size : m.header.record_length ≡ record_size m
  pub size_fits : record_size m < 2 ^ 16
  pub are_commands : AreCommands m.commands

pub written_length-variable_length :
    (m : Message) → 4 ≤ m.variable_length → written_length m ≡ m.variable_length
written_length-variable_length m h = rw (ge→ltb m.variable_length 4 h) refl

header_read : (m : Message) → IsMessage m → Header.unmarshal (record_bytes m) ≡ ok (m.header, 6)
unfolding Header.unmarshal
header_read m h =
    let f1 = h.type_fits in
    let f2 = h.reserved_fits in
    let f3 = h.size_fits in
    let ty = m.header.record_type in
    let rv = m.header.fixed_reserved in
    let sz = record_size m in
    let e1 : be16_read (sz / 2 ^ 8 % 2 ^ 8) (sz % 2 ^ 8) ≡ sz = omega arith in
    let e2 : be16_read (ty / 2 ^ 8 % 2 ^ 8) (ty % 2 ^ 8) ≡ ty = omega arith in
    let e3 : be16_read (rv / 2 ^ 8 % 2 ^ 8) (rv % 2 ^ 8) ≡ rv = omega arith in
    rw (ge→ltb (length (record_bytes m)) 6 (omega arith), e1, e2, e3)
      (λ i. ok (record m.header { record_length = sym h.length_is_size i }, 6))

pub four_le_written_length : (m : Message) → 4 ≤ written_length m
four_le_written_length m = ground arith

pub length-record_bytes : (m : Message) → length (record_bytes m) ≡ record_size m
length-record_bytes m =
    let k = written_length m - 4 in
    omega (
      arith,
      four_le_written_length m,
      length-replicate {A = ℕ} k 0,
      length-append (replicate k 0) (command_bytes m.commands),
    )

drop_ten :
    (k a b c d e f g h i j : ℕ) (xs : Bytes)
    → drop (10 + k) (a ∷ b ∷ c ∷ d ∷ e ∷ f ∷ g ∷ h ∷ i ∷ j ∷ xs) ≡ drop k xs
drop_ten k a b c d e f g h i j xs =
    let e : 10 + k ≡ suc (suc (suc (suc (suc (suc (suc (suc (suc (suc k))))))))) = omega arith in
    rw e

pub drop-record_bytes :
    (m : Message) → drop (6 + written_length m) (record_bytes m) ≡ command_bytes m.commands
drop-record_bytes m =
    let k = written_length m - 4 in
    let four = four_le_written_length m in
    let e : 6 + written_length m ≡ 10 + k = omega arith in
    ap (λ n. drop n (record_bytes m)) e
    ∙ drop_ten k _ _ _ _ _ _ _ _ _ _ (replicate k 0 ++ command_bytes m.commands)
    ∙ drop_prefix k (replicate k 0) (command_bytes m.commands) (sym (length-replicate {A = ℕ} k 0))

-- The message `n` with all that `m` holds, and the commands of `m` behind its own.
abbrev pub with_all_of : Message → Message → Message
with_all_of m n = record m { commands = n.commands ++ m.commands }

lt→leb : (a b : ℕ) → b < a → leb a b ≡ false
lt→leb a b h = ground arith

variable_read :
    (m n : Message)
    → IsMessage m
    → unmarshal_variable (record_bytes m) 6 (record n { header = m.header })
      ≡ (with_all_of m n, ok (length (record_bytes m)))
unfolding unmarshal_variable
variable_read m n h =
    let bs = record_bytes m in
    let w = written_length m in
    let size = length-record_bytes m in
    let four = four_le_written_length m in
    let filled : Message = record m { variable_length = w; commands = n.commands } in
    let e : (6 + w) + length (command_bytes m.commands) ≡ length bs = omega arith in
    let long = lt→leb (length bs) 6 (omega arith) in
    let same = written_length-variable_length m h.has_fields in
    rw (long, ge→ltb w 4 four, ge→ltb (length bs) (6 + w) (omega arith), drop-record_bytes m)
      (unmarshal_commands-fuel (length bs) (length bs) (6 + w) (command_bytes m.commands) filled
          (omega arith) (omega arith)
        ∙ unmarshal_commands-command_bytes m.commands (length bs) (6 + w) filled h.are_commands
            (omega arith)
        ∙ rw (e, same) refl)

pub marshal-fits : (m : Message) → IsMessage m → marshal m ≡ ok (record_bytes m)
marshal-fits m h =
    let f = h.size_fits in
    marshal-record_bytes m ∙ rw (ge→ltb 0xFFFF (record_size m) (omega arith)) refl

pub unmarshal-record_bytes :
    (m n : Message)
    → IsMessage m
    → unmarshal (record_bytes m) n ≡ (with_all_of m n, ok (length (record_bytes m)))
unfolding unmarshal
unmarshal-record_bytes m n h = rw (header_read m h) (variable_read m n h)

-- A message is marshalled without an error, and unmarshalling the bytes into any message takes them
-- all, gives it the fields, and appends the commands to its own, under these conditions. The record
-- type and the reserved word fit 16 bits, variableLength is 4 or more, and recordLength is the size of
-- the record and fits 16 bits. Each command and order has the code of its class, a Clear Unit and a
-- Read MDT Fields have no orders, and a Write To Display is the last command. A repeat has just one
-- character, and the display data of an address holds no code of an order. A field has control words
-- of 16 bits whose first bytes are no display attributes, an attribute that is one, and as a length
-- the number of its characters, which fits 16 bits.
pub unmarshal-marshal :
    (m n : Message)
    → IsMessage m
    → (bs : Bytes) × (marshal m ≡ ok bs) × (unmarshal bs n ≡ (with_all_of m n, ok (length bs)))
unmarshal-marshal m n h = (record_bytes m, marshal-fits m h, unmarshal-record_bytes m n h)
