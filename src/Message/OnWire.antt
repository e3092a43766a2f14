-- ===== src/Message/OnWire.antt =====
-- A record that is marshalled by tn5250/message, in the decoder of tn5250/client.
use protocol_tn.Base.{
  ◌+◌, ◌/◌, ◌%◌, ◌^◌, ◌≤◌, true, false, List, [], ◌∷◌, Bytes, is_empty, length, if◌then◌else◌, ◌≡◌,
  refl, sym, ap, ◌∙◌, inl, inr, arith, Bool-cases, length-append, lt→ltb, ge→ltb,
}
use protocol_tn.Decoder.Event.{on_parse_error, incomplete_variable_header}
use protocol_tn.Decoder.Stream.{record_events, opcode_events}
use protocol_tn.Decoder.Stream.Records.{IsRecord}
use protocol_tn.Message.Result.{Result, ok, err}
use protocol_tn.Message.Header.{general_data_stream}
use protocol_tn.Message.Record.{Message, written_length, marshal}
use protocol_tn.Message.Record.Loop.{command_bytes, nonempty-length, marshal_command-nonempty}
use protocol_tn.Message.Command.{Command, marshal_command}
use protocol_tn.Message.Record.RoundTrip.{
  IsMessage, record_bytes, marshal-fits, length-record_bytes, drop-record_bytes,
  four_le_written_length,
}

pub record_bytes-IsRecord : (m : Message) → IsMessage m → IsRecord (record_bytes m)
record_bytes-IsRecord m h =
    let size = length-record_bytes m in
    let f = h.size_fits in
    record { long_enough = omega arith; short_enough = omega arith; announces = omega arith }

-- The record of a message that has been marshalled.
ok-injective : (a b : Bytes) → ok a ≡ ok b → a ≡ b
ok-injective a b e = ap contents e
  where
    contents : Result Bytes → Bytes
    contents (ok bs) = bs
    contents (err x) = []

marshal-record : (m : Message) (bs : Bytes) → IsMessage m → marshal m ≡ ok bs → record_bytes m ≡ bs
marshal-record m bs h e = ok-injective (record_bytes m) bs (sym (marshal-fits m h) ∙ e)

nothing_behind : (ds : List Command) → is_empty ds ≡ true → length (command_bytes ds) ≡ 0
nothing_behind [] e = omega arith
nothing_behind (d ∷ ds) e = ground arith

something_behind : (ds : List Command) → is_empty ds ≡ false → 1 ≤ length (command_bytes ds)
something_behind [] e = ground arith
something_behind (d ∷ ds) e = omega (
  arith,
  nonempty-length (marshal_command d) (marshal_command-nonempty d),
  length-append (marshal_command d) (command_bytes ds),
)

-- The decoder's reading of a record, behind its tests of the size and the type.
record_events-record_bytes :
    (m : Message)
    → m.header.record_type ≡ general_data_stream
    → record_events (record_bytes m) ≡ (
        if is_empty m.commands
        then on_parse_error incomplete_variable_header ∷ []
        else opcode_events m.opcode (command_bytes m.commands))
unfolding record_events
record_events-record_bytes m g =
    let w = written_length m in
    let size = length-record_bytes m in
    let four = four_le_written_length m in
    let hi = ap (λ t. t / 2 ^ 8 % 2 ^ 8) g in
    let lo = ap (λ t. t % 2 ^ 8) g in
    let long = ge→ltb (length (record_bytes m)) 7 (omega arith) in
    elim (Bool-cases (is_empty m.commands)) [
      | inl e ↦
          let n = nothing_behind m.commands e in
          rw (long, hi, lo, lt→ltb (length (record_bytes m)) (6 + 1 + w) (omega arith), e) refl
      | inr e ↦
          let n = something_behind m.commands e in
          rw
            (
              drop-record_bytes m,
              long,
              hi,
              lo,
              ge→ltb (length (record_bytes m)) (6 + 1 + w) (omega arith),
              ge→ltb w 4 four,
              e,
            )
            refl
    ]

-- The decoder reads a well-formed general data stream message that was marshalled by its operation
-- code, with the bytes of its commands for the payload and the padding passed over. Where it has no
-- command, the decoder refuses the record for an incomplete variable header.
pub record_events-marshal :
    (m : Message) (bs : Bytes)
    → IsMessage m
    → m.header.record_type ≡ general_data_stream
    → marshal m ≡ ok bs
    → record_events bs ≡ (
        if is_empty m.commands
        then on_parse_error incomplete_variable_header ∷ []
        else opcode_events m.opcode (command_bytes m.commands))
record_events-marshal m bs h g e =
    rw (sym (marshal-record m bs h e)) (record_events-record_bytes m g)
