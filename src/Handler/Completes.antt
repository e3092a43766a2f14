-- ===== src/Handler/Completes.antt =====
-- How the handshake of protocol_handler.cpp comes to its end.
use protocol_tn.Base.{
  true, false, [], ◌∷◌, ◌++◌, Bytes, ◌≡◌, refl, sym, subst, ap, ◌∙◌, arith, Bool-cases, ==_iff,
  ◌==◌, inl, inr,
}
use protocol_tn.Telnet.Command.{iac, sb, se, terminal_type}
use protocol_tn.Handler.State.{World, Handler, ConnectionState, connected, rank, set_state}
use protocol_tn.Handler.Handshake.{
  complete_handshake, check_handshake_complete, send_device_name, handle_subnegotiation,
  handle_telnet_command,
}
use protocol_tn.Handler.Receive.{
  Receiver, data_byte, is_unescaped, standalone, option_round, iac_round, receive_round, hand_over,
  process_telnet_data, go,
}
use protocol_tn.Handler.Receive.Loop.{received, received_go, received_stop}
use protocol_tn.Handler.Receive.Framed.{start}
use protocol_tn.Handler.Announce.{set_state-handshake_complete}

-- SB TERMINAL-TYPE SEND, SE.
abbrev pub terminal_type_request : Bytes
terminal_type_request = iac ∷ sb ∷ terminal_type ∷ 0x01 ∷ iac ∷ se ∷ []

opened :
    (w : World) (bs : Bytes) (r : Receiver)
    → r.handler.handshake_complete ≡ false
    → receive_round w (iac ∷ sb ∷ terminal_type ∷ bs) r
      ≡ go
          (record r {
            handler = record r.handler {
              in_subnegotiation = true;
              current_subnegotiation = terminal_type;
              subnegotiation_buffer = [];
            };
          })
          bs
unfolding receive_round iac_round is_unescaped option_round handle_telnet_command
opened w bs r c = ground arith

collected :
    (w : World) (bs : Bytes) (r : Receiver)
    → r.handler.in_subnegotiation ≡ true
    → receive_round w (0x01 ∷ bs) r
      ≡ go
          (record r {
            handler = record r.handler {
              subnegotiation_buffer = r.handler.subnegotiation_buffer ++ (0x01 ∷ []);
            };
          })
          bs
unfolding receive_round data_byte
collected w bs r c = ground arith

closed :
    (w : World) (bs : Bytes) (r : Receiver)
    → r.handler.in_subnegotiation ≡ true
    → r.handler.current_subnegotiation ≡ terminal_type
    → receive_round w (iac ∷ se ∷ bs) r
      ≡ go
          (record r {
            handler = record (send_device_name r.handler) {
              subnegotiation_buffer = [];
              in_subnegotiation = false;
            };
          })
          bs
unfolding receive_round iac_round is_unescaped standalone handle_subnegotiation
closed w bs r c o = ground arith

-- The handler when the request ends.
abbrev asked : Handler → Handler
asked h = record h {
  receive_buffer = [];
  in_subnegotiation = true;
  current_subnegotiation = terminal_type;
  subnegotiation_buffer = 0x01 ∷ [];
}

abbrev answered : Handler → Receiver
answered h = record {
  handler = record (send_device_name (asked h)) {
    subnegotiation_buffer = [];
    in_subnegotiation = false;
  };
  processed = [];
}

received_request :
    (w : World) (h : Handler)
    → h.handshake_complete ≡ false
    → received w terminal_type_request (start h) ≡ (answered h, [])
received_request w h c =
    received_go w terminal_type_request (0x01 ∷ iac ∷ se ∷ []) (start h) _
      (opened w (0x01 ∷ iac ∷ se ∷ []) (start h) c)
    ∙ received_go w (0x01 ∷ iac ∷ se ∷ []) (iac ∷ se ∷ []) _ _ (collected w (iac ∷ se ∷ []) _ refl)
    ∙ received_go w (iac ∷ se ∷ []) [] (record { handler = asked h; processed = [] }) (answered h)
        (closed w [] (record { handler = asked h; processed = [] }) refl refl)
    ∙ received_stop w [] (answered h) (unfold receive_round in refl)

rank_injective : (s t : ConnectionState) → rank s ≡ rank t → s ≡ t
rank_injective s t e = ground arith

pub set_state-state : (s : ConnectionState) (h : Handler) → (set_state s h).state ≡ s
unfolding set_state
set_state-state s h = elim (Bool-cases (rank h.state == rank s)) [
  | inl e ↦ rw e (rank_injective h.state s ((==_iff (rank h.state) (rank s)).0 e))
  | inr e ↦ rw e
]

complete_handshake_done :
    (h : Handler)
    → ((complete_handshake h).handshake_complete ≡ true)
      × ((complete_handshake h).state ≡ connected)
unfolding complete_handshake
complete_handshake_done h =
    let begun = record h { handshake_complete = true } in
    ground (arith, set_state-state connected begun, set_state-handshake_complete connected begun)

check_handshake_complete_completes :
    (h : Handler)
    → h.handshake_complete ≡ false
    → h.binary_negotiated ≡ true
    → h.terminal_type_sent ≡ true
    → ((check_handshake_complete h).handshake_complete ≡ true)
      × ((check_handshake_complete h).state ≡ connected)
unfolding check_handshake_complete
check_handshake_complete_completes h c b t = ground (arith, complete_handshake_done h)

send_device_name_completes :
    (h : Handler)
    → h.handshake_complete ≡ false
    → ((send_device_name h).handshake_complete ≡ true) × ((send_device_name h).state ≡ connected)
unfolding send_device_name
send_device_name_completes h c = check_handshake_complete_completes _ c refl refl

process_request :
    (w : World) (h : Handler)
    → h.handshake_complete ≡ false
    → h.receive_buffer ≡ []
    → process_telnet_data w terminal_type_request h
      ≡ record (answered h).handler { receive_buffer = [] }
unfolding process_telnet_data received hand_over
process_request w h c e = ap finish done
  where
    finish : Receiver × Bytes → Handler
    finish d = hand_over d.0.processed (record d.0.handler { receive_buffer = d.1 })

    done : received w (h.receive_buffer ++ terminal_type_request) (start h) ≡ (answered h, [])
    done =
        subst (λ b. received w (b ++ terminal_type_request) (start h) ≡ (answered h, [])) (sym e)
          (received_request w h c)

-- Whatever has been negotiated and whatever has arrived before, a handler whose handshake is not
-- complete and that holds no half command is connected, with its handshake complete and no half
-- command, when the host has asked for the terminal type.
pub process-terminal_type_request :
    (w : World) (h : Handler)
    → h.handshake_complete ≡ false
    → h.receive_buffer ≡ []
    → ((process_telnet_data w terminal_type_request h).handshake_complete ≡ true)
      × ((process_telnet_data w terminal_type_request h).state ≡ connected)
      × ((process_telnet_data w terminal_type_request h).receive_buffer ≡ [])
process-terminal_type_request w h c e =
    let done = send_device_name_completes (asked h) c in
    rw (process_request w h c e) (done.0, done.1, refl)
