-- ===== src/Decoder/Grammar/Stream.antt =====
-- The decoder over a stream of GDS records that hold commands of the grammar.
use protocol_tn.Base.{
  ℕ, ◌+◌, ◌/◌, ◌%◌, ◌≤◌, true, List, [], ◌∷◌, ◌++◌, map, Bytes, All, length, ◌==◌, if◌then◌else◌,
  ◌≡◌, refl, ap, ◌∙◌, arith,
}
use protocol_tn.Protocol.{
  gds_record_type_hi, gds_record_type_lo, gds_var_hdr_len, gds_opcode_save_screen,
}
use protocol_tn.Decoder.Event.{Event, on_save_screen, on_raw_screen_data}
use protocol_tn.Decoder.Stream.{
  Decoder, carries_payload, payload_events, opcode_events, record_events,
}
use protocol_tn.Decoder.Stream.Records.{
  IsRecord, concat, parse_reads, all_events, parse_reads_records,
}
use protocol_tn.Decoder.Grammar.Commands.{
  HostCommand, commands_bytes, AreCommands, commands_meaning,
}
use protocol_tn.Decoder.Grammar.Payload.{command_bytes-lt, payload_loop_grammar}

-- A record with the four-byte variable header: the two reserved bytes, the two flag bytes, the opcode
-- and the payload.
abbrev pub gds_bytes : ℕ → ℕ → ℕ → ℕ → ℕ → Bytes → Bytes
gds_bytes r1 r2 f1 f2 op payload =
    (10 + length payload) / 256
    ∷ (10 + length payload) % 256
    ∷ gds_record_type_hi
    ∷ gds_record_type_lo
    ∷ r1
    ∷ r2
    ∷ gds_var_hdr_len
    ∷ f1
    ∷ f2
    ∷ op
    ∷ payload

pub gds_bytes-IsRecord :
    (r1 r2 f1 f2 op : ℕ) (payload : Bytes)
    → length payload ≤ 65525
    → IsRecord (gds_bytes r1 r2 f1 f2 op payload)
gds_bytes-IsRecord r1 r2 f1 f2 op payload h = record {
  long_enough = omega arith;
  short_enough = omega arith;
  announces = omega arith;
}

-- A record with a payload is read by its opcode.
pub record_events-gds_bytes :
    (r1 r2 f1 f2 op : ℕ) (payload : Bytes)
    → 1 ≤ length payload
    → record_events (gds_bytes r1 r2 f1 f2 op payload) ≡ opcode_events op payload
unfolding record_events
record_events-gds_bytes r1 r2 f1 f2 op payload h = ground arith

-- A record of commands under an opcode whose payload is read.
pub record HostRecord : Type 0 where
  pub reserved1 : ℕ
  pub reserved2 : ℕ
  pub flags1 : ℕ
  pub flags2 : ℕ
  pub opcode : ℕ
  pub first : HostCommand
  pub more : List HostCommand

abbrev pub host_payload : HostRecord → Bytes
host_payload r = commands_bytes (r.first ∷ r.more)

abbrev pub host_bytes : HostRecord → Bytes
host_bytes r = gds_bytes r.reserved1 r.reserved2 r.flags1 r.flags2 r.opcode (host_payload r)

pub record IsHostRecord (r : HostRecord) : Type 0 where
  pub fits : length (host_payload r) ≤ 65525
  pub read : carries_payload r.opcode ≡ true
  pub formed : AreCommands (r.first ∷ r.more)

-- Save Screen is announced, the commands are carried out, and the display is handed over.
abbrev pub host_meaning : HostRecord → List Event
host_meaning r =
    let out = commands_meaning (r.first ∷ r.more) in
    (if r.opcode == gds_opcode_save_screen then on_save_screen ∷ [] else [])
    ++ (out.events ++ (on_raw_screen_data out.display ∷ []))

abbrev pub all_bytes : List HostRecord → List Bytes
all_bytes = map host_bytes

abbrev pub all_meanings : List HostRecord → List Event
all_meanings [] = []
all_meanings (r ∷ rs) = host_meaning r ++ all_meanings rs

pub payload_events_grammar :
    (cs : List HostCommand)
    → AreCommands cs
    → payload_events (commands_bytes cs)
      ≡ (commands_meaning cs).events ++ (on_raw_screen_data (commands_meaning cs).display ∷ [])
unfolding payload_events
payload_events_grammar cs h =
    rw (payload_loop_grammar (length (commands_bytes cs)) cs h (omega arith))

pub opcode_events_read :
    (op : ℕ) (payload : Bytes)
    → carries_payload op ≡ true
    → opcode_events op payload
      ≡ (if op == gds_opcode_save_screen then on_save_screen ∷ [] else []) ++ payload_events payload
unfolding opcode_events carries_payload
opcode_events_read op payload h = ground arith

record_events_host :
    (r : HostRecord) → IsHostRecord r → record_events (host_bytes r) ≡ host_meaning r
record_events_host r v =
    record_events-gds_bytes _ _ _ _ _ (host_payload r)
      (omega (arith, command_bytes-lt r.first (commands_bytes r.more)))
    ∙ opcode_events_read r.opcode (host_payload r) v.read
    ∙ ap (◌++◌ (if r.opcode == gds_opcode_save_screen then on_save_screen ∷ [] else []))
        (payload_events_grammar (r.first ∷ r.more) v.formed)

all_events_host :
    (rs : List HostRecord) → All IsHostRecord rs → all_events (all_bytes rs) ≡ all_meanings rs
all_events_host [] h = refl
all_events_host (r ∷ rs) (h, hs) = rw (record_events_host r h, all_events_host rs hs)

pub all_bytes-IsRecord : (rs : List HostRecord) → All IsHostRecord rs → All IsRecord (all_bytes rs)
all_bytes-IsRecord [] h = tt
all_bytes-IsRecord (r ∷ rs) (h, hs) =
    (gds_bytes-IsRecord _ _ _ _ _ _ h.fits, all_bytes-IsRecord rs hs)

-- Whatever the reads are that the stream is cut into, a decoder with an empty buffer makes, for a
-- stream of well-formed records of commands of the grammar, the callbacks that the grammar gives, in
-- order, and is left with an empty buffer.
pub parse_reads_host :
    (d : Decoder) (rs : List HostRecord) (x : Bytes) (reads : List Bytes)
    → d.buffer ≡ []
    → All IsHostRecord rs
    → concat (x ∷ reads) ≡ concat (all_bytes rs)
    → parse_reads d (x ∷ reads) ≡ record d { calls = d.calls ++ all_meanings rs }
parse_reads_host d rs x reads b h e =
    parse_reads_records d (all_bytes rs) x reads b (all_bytes-IsRecord rs h) e
    ∙ rw (all_events_host rs h)
