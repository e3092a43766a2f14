-- ===== src/Session.antt =====
-- A ProtocolHandler in front of a Decoder: the bytes of tn5250/client/protocol_handler.cpp's
-- onDataReceived go to Decoder::parseData of tn5250/client/decoder.cpp, which is meant for them ("post-
-- Telnet").
use protocol_tn.Base.{
  List, [], ◌∷◌, ◌++◌, map, Bytes, All, ◌≡◌, refl, sym, ◌∙◌, append-nil, append_assoc, subst, arith,
}
use protocol_tn.Telnet.Command.{iac, eor}
use protocol_tn.Decoder.Stream.{Decoder}
use protocol_tn.Decoder.Stream.Records.{IsRecord, concat, parse_reads}
use protocol_tn.Decoder.Grammar.Stream.{
  HostRecord, IsHostRecord, host_bytes, all_bytes, all_meanings, all_bytes-IsRecord,
  parse_reads_host,
}
use protocol_tn.Handler.State.{Handler, World, Event, on_data_received, call}
use protocol_tn.Handler.Send.{escape_iac}
use protocol_tn.Handler.Repair.Chain.{IsLink, IsChain, end, link, repair-IsChain}
use protocol_tn.Handler.Receive.{process_telnet_data}
use protocol_tn.Handler.Receive.Loop.{received, received_stop}
use protocol_tn.Handler.Receive.Framed.{IsFramed, start, process_framed, process_telnet_data-append}
use protocol_tn.Handler.RoundTrip.{IsAtStart, nothing_round, flush_record_intact, process_sent}

-- A record on the wire: each 0xFF doubled, and IAC EOR behind it.
abbrev pub on_wire : Bytes → Bytes
on_wire d = escape_iac d ++ (iac ∷ eor ∷ [])

abbrev pub wire : List Bytes → Bytes
wire [] = []
wire (d ∷ ds) = on_wire d ++ wire ds

-- The reads of the socket, one after the other.
unfoldable pub process_reads : World → Handler → List Bytes → Handler
process_reads w h [] = h
process_reads w h (x ∷ xs) = process_reads w (process_telnet_data w x h) xs

-- The handler with `ds` handed over, one by one.
abbrev pub deliver : List Bytes → Handler → Handler
deliver ds h = record h { calls = h.calls ++ map on_data_received ds }

process_reads-concat :
    (w : World) (h : Handler) (x : Bytes) (reads : List Bytes)
    → IsFramed h
    → process_reads w (process_telnet_data w x h) reads
      ≡ process_telnet_data w (x ++ concat reads) h
unfolding process_reads
process_reads-concat w h x [] v = rw append-nil
process_reads-concat w h x (y ∷ ys) v =
    rw (process_telnet_data-append w x y h v, process_reads-concat w h (x ++ y) ys v, append_assoc)

deliver_nil : (h : Handler) → h ≡ deliver [] h
deliver_nil h = λ i. record h { calls = sym (append-nil h.calls) i }

deliver_more :
    (d : Bytes) (ds : List Bytes) (h : Handler)
    → deliver ds (call (on_data_received d) h) ≡ deliver (d ∷ ds) h
deliver_more d ds h = λ i. record h {
  calls = append_assoc h.calls (on_data_received d ∷ []) (map on_data_received ds) i;
}

process_nothing : (w : World) (h : Handler) → IsAtStart h → process_telnet_data w [] h ≡ h
process_nothing w h v = process_framed w [] h v.framed ∙ rw at_start same_handler
  where
    at_start : received w (h.receive_buffer ++ []) (start h) ≡ (start h, [])
    at_start =
        subst (λ b. received w (b ++ []) (start h) ≡ (start h, [])) (sym v.nothing_left)
          (received_stop w [] (start h) (nothing_round w (start h)))

    same_handler : record h { receive_buffer = [] } ≡ h
    same_handler = λ i. record h { receive_buffer = sym v.nothing_left i }

IsRecord-IsLink : (d : Bytes) → IsRecord d → IsLink d
IsRecord-IsLink d v = record { long_enough = v.long_enough; announces = v.announces }

process_on_wire :
    (w : World) (d : Bytes) (h : Handler)
    → IsAtStart h
    → IsRecord d
    → process_telnet_data w (on_wire d) h ≡ call (on_data_received d) h
process_on_wire w d h v r =
    process_sent w d h v
    ∙ flush_record_intact d h v.no_record (ground arith) (repair-IsChain d chain)
  where
    chain : IsChain d
    chain = subst IsChain (append-nil d) (link d [] (IsRecord-IsLink d r) end)

call-IsAtStart : (e : Event) (h : Handler) → IsAtStart h → IsAtStart (call e h)
call-IsAtStart e h v = record {
  framed = record { complete = v.framed.complete; eor = v.framed.eor };
  no_subnegotiation = v.no_subnegotiation;
  nothing_left = v.nothing_left;
  no_record = v.no_record;
}

process_wire :
    (w : World) (ds : List Bytes) (h : Handler)
    → IsAtStart h
    → All IsRecord ds
    → process_telnet_data w (wire ds) h ≡ deliver ds h
process_wire w [] h v r = process_nothing w h v ∙ deliver_nil h
process_wire w (d ∷ ds) h v (r, rs) =
    sym (process_telnet_data-append w (on_wire d) (wire ds) h v.framed)
    ∙ rw (process_on_wire w d h v r) (
        process_wire w ds (call (on_data_received d) h) (call-IsAtStart (on_data_received d) h v) rs
        ∙ deliver_more d ds h)

-- However the socket cuts the bytes of a list of records into reads, a framed handler at the start
-- of a record hands the records over one by one as they were sent, and does nothing else.
pub process_reads-wire :
    (w : World) (h : Handler) (ds : List Bytes) (x : Bytes) (reads : List Bytes)
    → IsAtStart h
    → All IsRecord ds
    → concat (x ∷ reads) ≡ wire ds
    → process_reads w h (x ∷ reads) ≡ deliver ds h
unfolding process_reads
process_reads-wire w h ds x reads v r e =
    rw (process_reads-concat w h x reads v.framed, e) (process_wire w ds h v r)

-- A framed handler at the start of a record stands between a socket, which cuts the bytes of the
-- host's records into any reads, and a decoder with an empty buffer. The handler hands over just the
-- records that the host built, and the decoder makes of them the callbacks that the grammar gives,
-- in order, and is left with an empty buffer.
pub session_reads :
    (w : World) (h : Handler) (d : Decoder)
    → (r : HostRecord) (rs : List HostRecord) (x : Bytes) (reads : List Bytes) → IsAtStart h
    → d.buffer ≡ []
    → All IsHostRecord (r ∷ rs)
    → concat (x ∷ reads) ≡ wire (all_bytes (r ∷ rs))
    → (process_reads w h (x ∷ reads) ≡ deliver (all_bytes (r ∷ rs)) h)
      × (parse_reads d (all_bytes (r ∷ rs)) ≡ record d { calls = d.calls ++ all_meanings (r ∷ rs) })
session_reads w h d r rs x reads v b f e = (
  process_reads-wire w h (all_bytes (r ∷ rs)) x reads v (all_bytes-IsRecord (r ∷ rs) f) e,
  parse_reads_host d (r ∷ rs) (host_bytes r) (all_bytes rs) b f refl,
)
