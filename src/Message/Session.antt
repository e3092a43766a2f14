-- ===== src/Message/Session.antt =====
-- Records that are marshalled by tn5250/message, on the wire to a handler in front of a decoder.
use protocol_tn.Base.{
  true, false, List, [], ◌∷◌, ◌++◌, map, Bytes, All, is_empty, length, ◌≡◌, refl, ap₂, ◌∙◌,
}
use protocol_tn.Decoder.Event.{Event}
use protocol_tn.Decoder.Stream.{Decoder, carries_payload}
use protocol_tn.Decoder.Stream.Records.{
  IsRecord, concat, parse_reads, all_events, parse_reads_records,
}
use protocol_tn.Session.{wire, deliver, process_reads, process_reads-wire}
use protocol_tn.Handler.RoundTrip.{IsAtStart}
use protocol_tn.Handler.State.{Handler, World}
use protocol_tn.Message.Result.{ok}
use protocol_tn.Message.Header.{general_data_stream}
use protocol_tn.Message.Record.{Message, new, unmarshal, marshal}
use protocol_tn.Message.Record.RoundTrip.{
  IsMessage, record_bytes, marshal-fits, unmarshal-record_bytes,
}
use protocol_tn.Message.OnWire.{record_bytes-IsRecord}
use protocol_tn.Message.Agreement.{IsSharedCommand, message_meaning, record_events-message}

-- A message that a host sends: a general data stream record with a command, under an operation code
-- of which the payload is read, that the decoder and Message::unmarshal read alike.
pub record IsHostMessage (m : Message) : Type 0 where
  pub formed : IsMessage m
  pub stream : m.header.record_type ≡ general_data_stream
  pub filled : is_empty m.commands ≡ false
  pub read : carries_payload m.opcode ≡ true
  pub shared : All IsSharedCommand m.commands

abbrev pub all_records : List Message → List Bytes
all_records = map record_bytes

abbrev pub all_meanings : List Message → List Event
all_meanings [] = []
all_meanings (m ∷ ms) = message_meaning m ++ all_meanings ms

-- The record is what the message is marshalled to, and it is unmarshalled to the message.
abbrev pub IsKept : Message → Type 0
IsKept m =
    (marshal m ≡ ok (record_bytes m))
    × (unmarshal (record_bytes m) new ≡ (m, ok (length (record_bytes m))))

all_records-IsRecord : (ms : List Message) → All IsHostMessage ms → All IsRecord (all_records ms)
all_records-IsRecord [] h = tt
all_records-IsRecord (m ∷ ms) (h, hs) =
    (record_bytes-IsRecord m h.formed, all_records-IsRecord ms hs)

all_events-all_records :
    (ms : List Message) → All IsHostMessage ms → all_events (all_records ms) ≡ all_meanings ms
all_events-all_records [] h = refl
all_events-all_records (m ∷ ms) (h, hs) =
    ap₂ (λ a b. a ++ b)
      (record_events-message m (record_bytes m) h.formed h.stream h.filled h.read h.shared
        (marshal-fits m h.formed))
      (all_events-all_records ms hs)

All-IsKept : (ms : List Message) → All IsHostMessage ms → All IsKept ms
All-IsKept [] h = tt
All-IsKept (m ∷ ms) (h, hs) =
    ((marshal-fits m h.formed, unmarshal-record_bytes m new h.formed), All-IsKept ms hs)

-- Well-formed general data stream messages, which the decoder and Message::unmarshal read alike, are
-- marshalled, framed, and cut into any reads. A framed handler at the start of a record hands over
-- just their records, a decoder with an empty buffer makes of these the callbacks that the grammar
-- gives to their commands, in order, and Message::unmarshal gives each message back.
pub session_messages :
    (w : World) (h : Handler) (d : Decoder) (m : Message) (ms : List Message) (x : Bytes)
    (reads : List Bytes)
    → IsAtStart h
    → d.buffer ≡ []
    → All IsHostMessage (m ∷ ms)
    → concat (x ∷ reads) ≡ wire (all_records (m ∷ ms))
    → (process_reads w h (x ∷ reads) ≡ deliver (all_records (m ∷ ms)) h)
      × (parse_reads d (all_records (m ∷ ms))
          ≡ record d { calls = d.calls ++ all_meanings (m ∷ ms) })
      × All IsKept (m ∷ ms)
session_messages w h d m ms x reads v b f e = (
  process_reads-wire w h (all_records (m ∷ ms)) x reads v (all_records-IsRecord (m ∷ ms) f) e,
  parse_reads_records d (all_records (m ∷ ms)) (record_bytes m) (all_records ms) b
        (all_records-IsRecord (m ∷ ms) f) refl
      ∙ rw (all_events-all_records (m ∷ ms) f) refl,
  All-IsKept (m ∷ ms) f,
)
