-- ===== src/Handler/Receive/Framed.antt =====
-- A session after the handshake, with END-OF-RECORD agreed on: bytes are collected by record, and no
-- read of the socket ends one.
use protocol_tn.Base.{
  ℕ, zero, suc, ◌≤◌, true, [], ◌∷◌, ◌++◌, Bytes, length, ◌≡◌, refl, ◌∙◌, inl, inr, arith,
  append_assoc,
}
use protocol_tn.Handler.State.{Handler, World, call, on_log, unescaped_iac}
use protocol_tn.Handler.Send.{send_telnet_command}
use protocol_tn.Handler.Handshake.{
  check_handshake_complete, send_device_name, send_new_environ, handle_subnegotiation, handle_will,
  handle_do, handle_telnet_command,
}
use protocol_tn.Handler.Receive.{
  Receiver, Round, stop, go, append_data, flush_record, standalone, option_round, iac_round,
  data_byte, receive_round, hand_over, process_telnet_data,
}
use protocol_tn.Handler.Receive.Loop.{
  received, received_stop, received_go, received-append, Round-cases, go-lt,
}

pub record IsFramed (h : Handler) : Type 0 where
  pub complete : h.handshake_complete ≡ true
  pub eor : h.eor_negotiated ≡ true

-- The same, while the loop holds the buffer.
pub record IsLooping (h : Handler) : Type 0 where
  pub complete : h.handshake_complete ≡ true
  pub eor : h.eor_negotiated ≡ true
  pub held : h.receive_buffer ≡ []

pub record IsCollecting (r : Receiver) : Type 0 where
  pub framed : IsLooping r.handler
  pub none_processed : r.processed ≡ []

send_telnet_command-IsLooping :
    (c o : ℕ) (h : Handler) → IsLooping h → IsLooping (send_telnet_command c o h)
unfolding send_telnet_command
send_telnet_command-IsLooping c o h v = record { complete = v.complete; eor = v.eor; held = v.held }

-- Nothing is left for the handshake to do.
pub check_handshake_complete_done :
    (h : Handler) → h.handshake_complete ≡ true → check_handshake_complete h ≡ h
unfolding check_handshake_complete
check_handshake_complete_done h e = rw e

send_device_name-IsLooping : (h : Handler) → IsLooping h → IsLooping (send_device_name h)
unfolding send_device_name check_handshake_complete
send_device_name-IsLooping h v = ground arith

handle_will-IsLooping : (o : ℕ) (h : Handler) → IsLooping h → IsLooping (handle_will o h)
unfolding handle_will check_handshake_complete send_telnet_command
handle_will-IsLooping o h v = ground arith

handle_do-IsLooping : (o : ℕ) (h : Handler) → IsLooping h → IsLooping (handle_do o h)
unfolding handle_do check_handshake_complete send_telnet_command
handle_do-IsLooping o h v = ground arith

handle_telnet_command-IsLooping :
    (c o : ℕ) (h : Handler) → IsLooping h → IsLooping (handle_telnet_command c o h)
unfolding handle_telnet_command
handle_telnet_command-IsLooping c o h v =
    ground (arith, handle_will-IsLooping o h v, handle_do-IsLooping o h v)

handle_subnegotiation-IsLooping :
    (w : World) (o : ℕ) (bs : Bytes) (h : Handler)
    → IsLooping h
    → IsLooping (handle_subnegotiation w o bs h)
unfolding handle_subnegotiation send_new_environ
handle_subnegotiation-IsLooping w o bs h v = ground (arith, send_device_name-IsLooping h v)

flush_record-IsLooping : (h : Handler) → IsLooping h → IsLooping (flush_record h)
unfolding flush_record
flush_record-IsLooping h v = ground arith

append_data-IsCollecting : (b : ℕ) (r : Receiver) → IsCollecting r → IsCollecting (append_data b r)
unfolding append_data
append_data-IsCollecting b r v = ground arith

standalone-IsCollecting :
    (w : World) (n : ℕ) (r : Receiver) → IsCollecting r → IsCollecting (standalone w n r)
unfolding standalone
standalone-IsCollecting w n r v = ground (
  arith,
  handle_subnegotiation-IsLooping w r.handler.current_subnegotiation r.handler.subnegotiation_buffer
      r.handler v.framed,
  flush_record-IsLooping
      (record r.handler { record_buffer = r.processed ++ r.handler.record_buffer }),
)

data_byte-IsCollecting : (b : ℕ) (r : Receiver) → IsCollecting r → IsCollecting (data_byte b r)
unfolding data_byte
data_byte-IsCollecting b r v = ground (arith, append_data-IsCollecting b r v)

abbrev GoesOn : (Receiver → Type 0) → Round → Type 0
GoesOn P stop = Unit
GoesOn P (go r rest) = P r

option_round-IsCollecting :
    (c : ℕ) (bs : Bytes) (r : Receiver) → IsCollecting r → GoesOn IsCollecting (option_round c bs r)
unfolding option_round
option_round-IsCollecting c [] r v = tt
option_round-IsCollecting c (o ∷ bs) r v = record {
  framed = handle_telnet_command-IsLooping c o r.handler v.framed;
  none_processed = v.none_processed;
}

iac_round-IsCollecting :
    (w : World) (bs : Bytes) (r : Receiver)
    → IsCollecting r
    → GoesOn IsCollecting (iac_round w bs r)
unfolding iac_round
iac_round-IsCollecting w [] r v = tt
iac_round-IsCollecting w (n ∷ bs) r v = ground (
  arith,
  append_data-IsCollecting 0xFF r v,
  append_data-IsCollecting 0xFF (record r { handler = call (on_log (unescaped_iac n)) r.handler }),
  standalone-IsCollecting w n r v,
  option_round-IsCollecting n bs r v,
)

receive_round-IsCollecting :
    (w : World) (bs : Bytes) (r : Receiver)
    → IsCollecting r
    → GoesOn IsCollecting (receive_round w bs r)
unfolding receive_round
receive_round-IsCollecting w [] r v = tt
receive_round-IsCollecting w (b ∷ bs) r v =
    ground (arith, iac_round-IsCollecting w bs r v, data_byte-IsCollecting b r v)

received-IsCollecting_fuel :
    (f : ℕ) (w : World) (bs : Bytes) (r : Receiver)
    → length bs ≤ f
    → IsCollecting r
    → IsCollecting (received w bs r).0
received-IsCollecting_fuel zero w bs r l v = elim (Round-cases (receive_round w bs r)) [
  | inl h ↦ rw (received_stop w bs r h) v
  | inr (s, rest, h) ↦ absurd (omega (arith, go-lt w bs rest r s h))
]
received-IsCollecting_fuel (suc f) w bs r l v = elim (Round-cases (receive_round w bs r)) [
  | inl h ↦ rw (received_stop w bs r h) v
  | inr (s, rest, h) ↦ rw (received_go w bs rest r s h) (
      received-IsCollecting_fuel f w rest s (omega (arith, go-lt w bs rest r s h))
        (rw h at (receive_round-IsCollecting w bs r v)))
]

pub received-IsCollecting :
    (w : World) (bs : Bytes) (r : Receiver) → IsCollecting r → IsCollecting (received w bs r).0
received-IsCollecting w bs r v = received-IsCollecting_fuel (length bs) w bs r (omega arith) v

-- The receiver at the start of the loop.
abbrev pub start : Handler → Receiver
start h = record { handler = record h { receive_buffer = [] }; processed = [] }

pub start-IsCollecting : (h : Handler) → IsFramed h → IsCollecting (start h)
start-IsCollecting h v = record {
  framed = record { complete = v.complete; eor = v.eor; held = refl };
  none_processed = refl;
}

-- In a framed session nothing is left to be handed over at the end of a read.
pub process_framed :
    (w : World) (input : Bytes) (h : Handler)
    → IsFramed h
    → process_telnet_data w input h
      ≡ record (received w (h.receive_buffer ++ input) (start h)).0.handler {
        receive_buffer = (received w (h.receive_buffer ++ input) (start h)).1;
      }
unfolding process_telnet_data received hand_over
process_framed w input h v = rw (
    (received-IsCollecting w (h.receive_buffer ++ input) (start h)
      (start-IsCollecting h v)).none_processed)

-- Once the handshake is complete and END-OF-RECORD is agreed on, no bytes from the host undo it.
pub process_telnet_data-IsFramed :
    (w : World) (input : Bytes) (h : Handler)
    → IsFramed h
    → IsFramed (process_telnet_data w input h)
process_telnet_data-IsFramed w input h v =
    rw (process_framed w input h v) (record { complete = c.complete; eor = c.eor })
  where
    c : IsLooping (received w (h.receive_buffer ++ input) (start h)).0.handler
    c =
        (received-IsCollecting w (h.receive_buffer ++ input) (start h)
          (start-IsCollecting h v)).framed

start_resumes :
    (r : Receiver) (rest : Bytes)
    → IsCollecting r
    → start (record r.handler { receive_buffer = rest }) ≡ r
start_resumes r rest v = ground arith

-- In a framed session two reads act as one read of all their bytes: the same callbacks in the same
-- order, and the same state behind them. How TCP cuts the stream into reads cannot be observed.
pub process_telnet_data-append :
    (w : World) (a b : Bytes) (h : Handler)
    → IsFramed h
    → process_telnet_data w b (process_telnet_data w a h) ≡ process_telnet_data w (a ++ b) h
process_telnet_data-append w a b h v =
    process_framed w b (process_telnet_data w a h) (process_telnet_data-IsFramed w a h v)
    ∙ rw (
      process_framed w a h v,
      process_framed w (a ++ b) h v,
      resumes,
      ← append_assoc h.receive_buffer a b,
      received-append w (h.receive_buffer ++ a) b (start h),
    )
  where
    resumes :
        start (record (received w (h.receive_buffer ++ a) (start h)).0.handler {
          receive_buffer = (received w (h.receive_buffer ++ a) (start h)).1;
        })
        ≡ (received w (h.receive_buffer ++ a) (start h)).0
    resumes =
        start_resumes (received w (h.receive_buffer ++ a) (start h)).0
          (received w (h.receive_buffer ++ a) (start h)).1
          (received-IsCollecting w (h.receive_buffer ++ a) (start h) (start-IsCollecting h v))
