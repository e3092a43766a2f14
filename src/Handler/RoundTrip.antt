-- ===== src/Handler/RoundTrip.antt =====
-- A record that one side sends arrives whole at the other: sendRawData and sendGDS against
-- processTelnetData.
use protocol_tn.Base.{
  ℕ, ◌≤◌, true, false, [], ◌∷◌, ◌++◌, Bytes, is_empty, length, ◌==◌, ◌≡◌, refl, sym, ap, ◌∙◌, inl,
  inr, arith, Bool-cases, ==_iff, append-nil, append_assoc, subst,
}
use protocol_tn.Telnet.Command.{iac, eor}
use protocol_tn.Handler.State.{Handler, World, on_data_received, call}
use protocol_tn.Handler.Send.{escape_iac, gds_record}
use protocol_tn.Handler.Repair.{repair_gds_record_length}
use protocol_tn.Handler.Repair.Chain.{IsLink, IsChain, end, link, repair-IsChain}
use protocol_tn.Handler.Receive.{
  Receiver, stop, go, append_data, data_byte, same, flush_record, is_unescaped, standalone,
  iac_round, receive_round, process_telnet_data,
}
use protocol_tn.Handler.Receive.Loop.{received, received_stop, received_go}
use protocol_tn.Handler.Receive.Framed.{
  IsFramed, IsCollecting, start, start-IsCollecting, process_framed,
}

-- The receiver with more bytes of the record.
abbrev collect : Bytes → Receiver → Receiver
collect d r = record r {
  handler = record r.handler { record_buffer = r.handler.record_buffer ++ d };
}

append_data_collects :
    (b : ℕ) (r : Receiver) → IsCollecting r → append_data b r ≡ collect (b ∷ []) r
unfolding append_data
append_data_collects b r v = ground arith

pub plain_round :
    (w : World) (b : ℕ) (rest : Bytes) (r : Receiver)
    → (b == iac) ≡ false
    → r.handler.in_subnegotiation ≡ false
    → receive_round w (b ∷ rest) r ≡ go (append_data b r) rest
unfolding receive_round data_byte
plain_round w b rest r h n = ground arith

pub doubled_round :
    (w : World) (rest : Bytes) (r : Receiver)
    → receive_round w (iac ∷ iac ∷ rest) r ≡ go (append_data 0xFF r) rest
unfolding receive_round iac_round
doubled_round w rest r = refl

collect-collect :
    (a : ℕ) (d : Bytes) (r : Receiver) → collect d (collect (a ∷ []) r) ≡ collect (a ∷ d) r
collect-collect a d r = λ i. record r {
  handler = record r.handler { record_buffer = append_assoc r.handler.record_buffer (a ∷ []) d i };
}

collect_nil : (r : Receiver) → r ≡ collect [] r
collect_nil r = λ i. record r {
  handler = record r.handler { record_buffer = sym (append-nil r.handler.record_buffer) i };
}

collect-IsCollecting : (d : Bytes) (r : Receiver) → IsCollecting r → IsCollecting (collect d r)
collect-IsCollecting d r v = record {
  framed = record { complete = v.framed.complete; eor = v.framed.eor; held = v.framed.held };
  none_processed = v.none_processed;
}

received_escaped :
    (d : Bytes) (w : World) (rest : Bytes) (r : Receiver)
    → IsCollecting r
    → r.handler.in_subnegotiation ≡ false
    → received w (escape_iac d ++ rest) r ≡ received w rest (collect d r)
unfolding escape_iac
received_escaped [] w rest r v n = ap (received w rest) (collect_nil r)
received_escaped (b ∷ d) w rest r v n = elim (Bool-cases (b == iac)) [
  | inl e ↦ rw ((==_iff b iac).0 e) (
      received_go w (iac ∷ iac ∷ (escape_iac d ++ rest)) (escape_iac d ++ rest) r
        (append_data iac r) (doubled_round w (escape_iac d ++ rest) r)
      ∙ rw (append_data_collects iac r v) (
          received_escaped d w rest (collect (iac ∷ []) r) (collect-IsCollecting (iac ∷ []) r v) n
          ∙ rw (collect-collect iac d r)))
  | inr e ↦ rw e (
      received_go w (b ∷ (escape_iac d ++ rest)) (escape_iac d ++ rest) r (append_data b r)
        (plain_round w b (escape_iac d ++ rest) r e n)
      ∙ rw (append_data_collects b r v) (
          received_escaped d w rest (collect (b ∷ []) r) (collect-IsCollecting (b ∷ []) r v) n
          ∙ rw (collect-collect b d r)))
]

eor_round :
    (w : World) (r : Receiver)
    → IsCollecting r
    → r.handler.in_subnegotiation ≡ false
    → receive_round w (iac ∷ eor ∷ []) r ≡ go (record r { handler = flush_record r.handler }) []
unfolding receive_round iac_round is_unescaped standalone
eor_round w r v n = ground arith

pub nothing_round : (w : World) (r : Receiver) → receive_round w [] r ≡ stop
unfolding receive_round
nothing_round w r = refl

-- A framed handler at the start of a record, with nothing left over from the last read.
pub record IsAtStart (h : Handler) : Type 0 where
  pub framed : IsFramed h
  pub no_subnegotiation : h.in_subnegotiation ≡ false
  pub nothing_left : h.receive_buffer ≡ []
  pub no_record : h.record_buffer ≡ []

-- The receiver that holds the record `d`.
abbrev holding : Bytes → Handler → Receiver
holding d h = record { handler = record h { record_buffer = d }; processed = [] }

collect-start : (d : Bytes) (h : Handler) → IsAtStart h → collect d (start h) ≡ holding d h
collect-start d h v = ground arith

flush_record-receive_buffer :
    (h : Handler)
    → h.receive_buffer ≡ []
    → record (flush_record h) { receive_buffer = [] } ≡ flush_record h
unfolding flush_record
flush_record-receive_buffer h e = ground arith

received_sent :
    (w : World) (d : Bytes) (h : Handler)
    → IsAtStart h
    → received w (escape_iac d ++ (iac ∷ eor ∷ [])) (start h)
      ≡ (record { handler = flush_record (record h { record_buffer = d }); processed = [] }, [])
received_sent w d h v =
    received_escaped d w (iac ∷ eor ∷ []) (start h) c v.no_subnegotiation
    ∙ rw (collect-start d h v) (
        received_go w (iac ∷ eor ∷ []) [] (holding d h) _
          (eor_round w (holding d h) held v.no_subnegotiation)
        ∙ received_stop w [] _ (nothing_round w _))
  where
    c : IsCollecting (start h)
    c = start-IsCollecting h v.framed

    held : IsCollecting (holding d h)
    held = subst IsCollecting (collect-start d h v) (collect-IsCollecting d (start h) c)

-- What sendRawData puts on the wire for `d` ends one record, which holds `d`.
pub process_sent :
    (w : World) (d : Bytes) (h : Handler)
    → IsAtStart h
    → process_telnet_data w (escape_iac d ++ (iac ∷ eor ∷ [])) h
      ≡ flush_record (record h { record_buffer = d })
process_sent w d h v =
    process_framed w (escape_iac d ++ (iac ∷ eor ∷ [])) h v.framed
    ∙ rw (at_start) (flush_record-receive_buffer (record h { record_buffer = d }) v.nothing_left)
  where
    at_start :
        received w (h.receive_buffer ++ (escape_iac d ++ (iac ∷ eor ∷ []))) (start h)
        ≡ (record { handler = flush_record (record h { record_buffer = d }); processed = [] }, [])
    at_start =
        subst
          (λ b. received w (b ++ (escape_iac d ++ (iac ∷ eor ∷ []))) (start h) ≡ (
            record { handler = flush_record (record h { record_buffer = d }); processed = [] },
            [],
          ))
          (sym v.nothing_left) (received_sent w d h v)

same_refl : (bs : Bytes) → same bs bs ≡ true
unfolding same
same_refl [] = refl
same_refl (b ∷ bs) = ground (arith, same_refl bs)

pub flush_record_intact :
    (d : Bytes) (h : Handler)
    → h.record_buffer ≡ []
    → is_empty d ≡ false
    → repair_gds_record_length d ≡ d
    → flush_record (record h { record_buffer = d }) ≡ call (on_data_received d) h
unfolding flush_record
flush_record_intact d h n e f = ground (arith, same_refl d)

gds_record-is_empty :
    (flags opcode : ℕ) (payload : Bytes) → is_empty (gds_record flags opcode payload) ≡ false
unfolding gds_record
gds_record-is_empty flags opcode payload = refl

gds_record-IsLink :
    (flags opcode : ℕ) (payload : Bytes)
    → length payload ≤ 65525
    → IsLink (gds_record flags opcode payload)
unfolding gds_record
gds_record-IsLink flags opcode payload h = record {
  long_enough = omega arith;
  announces = omega arith;
}

repair-gds_record :
    (flags opcode : ℕ) (payload : Bytes)
    → length payload ≤ 65525
    → repair_gds_record_length (gds_record flags opcode payload) ≡ gds_record flags opcode payload
repair-gds_record flags opcode payload h =
    let g = gds_record flags opcode payload in
    repair-IsChain g
      (subst IsChain (append-nil g) (link g [] (gds_record-IsLink flags opcode payload h) end))

-- The bytes that sendGDS puts on the wire for a payload of up to 65525 bytes, 0xFF among them or
-- not, make a framed handler at the start of a record hand over the very record that was built, and
-- do nothing else.
pub process-gds_record :
    (w : World) (flags opcode : ℕ) (payload : Bytes) (h : Handler)
    → IsAtStart h
    → length payload ≤ 65525
    → process_telnet_data w (escape_iac (gds_record flags opcode payload) ++ (iac ∷ eor ∷ [])) h
      ≡ call (on_data_received (gds_record flags opcode payload)) h
process-gds_record w flags opcode payload h v l =
    process_sent w (gds_record flags opcode payload) h v
    ∙ flush_record_intact (gds_record flags opcode payload) h v.no_record
        (gds_record-is_empty flags opcode payload) (repair-gds_record flags opcode payload l)
