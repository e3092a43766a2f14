-- ===== src/Handler/Reconnect.antt =====
-- What protocol_handler.cpp makes of a connection that is lost and made again: onSocketDisconnected
-- and onSocketConnected against the flags of the handshake.
use protocol_tn.Base.{ℕ, zero, suc, true, [], ◌∷◌, ◌++◌, Bytes, List, length, ◌≡◌, ◌∙◌, arith}
use protocol_tn.Handler.State.{ConnectionState, negotiating, disconnected, World, Handler}
use protocol_tn.Handler.Send.{send_telnet_command, perform_handshake}
use protocol_tn.Handler.Handshake.{
  check_handshake_complete, send_device_name, send_new_environ, handle_subnegotiation, handle_will,
  handle_do, handle_telnet_command,
}
use protocol_tn.Handler.Receive.{
  Receiver, Round, stop, go, go_on, append_data, data_byte, flush_record, standalone, option_round,
  iac_round, receive_round, receive_loop, hand_over, process_telnet_data, on_socket_connected,
  on_socket_disconnected,
}
use protocol_tn.Handler.Announce.{set_state-handshake_complete}
use protocol_tn.Handler.Completes.{set_state-state}
use protocol_tn.Session.{process_reads}

-- The handshake is complete, and the state is `s`.
pub record IsPast (s : ConnectionState) (h : Handler) : Type 0 where
  pub complete : h.handshake_complete ≡ true
  pub stays : h.state ≡ s

handle_will-IsPast :
    (s : ConnectionState) (o : ℕ) (h : Handler) → IsPast s h → IsPast s (handle_will o h)
unfolding handle_will check_handshake_complete send_telnet_command
handle_will-IsPast s o h v = ground arith

handle_do-IsPast :
    (s : ConnectionState) (o : ℕ) (h : Handler) → IsPast s h → IsPast s (handle_do o h)
unfolding handle_do check_handshake_complete send_telnet_command
handle_do-IsPast s o h v = ground arith

handle_telnet_command-IsPast :
    (s : ConnectionState) (c o : ℕ) (h : Handler)
    → IsPast s h
    → IsPast s (handle_telnet_command c o h)
unfolding handle_telnet_command
handle_telnet_command-IsPast s c o h v =
    ground (arith, handle_will-IsPast s o h v, handle_do-IsPast s o h v)

handle_subnegotiation-IsPast :
    (s : ConnectionState) (w : World) (o : ℕ) (bs : Bytes) (h : Handler)
    → IsPast s h
    → IsPast s (handle_subnegotiation w o bs h)
unfolding handle_subnegotiation send_new_environ send_device_name check_handshake_complete
handle_subnegotiation-IsPast s w o bs h v = ground arith

flush_record-IsPast : (s : ConnectionState) (h : Handler) → IsPast s h → IsPast s (flush_record h)
unfolding flush_record
flush_record-IsPast s h v = ground arith

append_data-IsPast :
    (s : ConnectionState) (b : ℕ) (r : Receiver)
    → IsPast s r.handler
    → IsPast s (append_data b r).handler
unfolding append_data
append_data-IsPast s b r v = ground arith

standalone-IsPast :
    (s : ConnectionState) (w : World) (b : ℕ) (r : Receiver)
    → IsPast s r.handler
    → IsPast s (standalone w b r).handler
unfolding standalone
standalone-IsPast s w b r v =
    let h = r.handler in
    let joined = record h { record_buffer = r.processed ++ h.record_buffer } in
    ground (
      arith,
      handle_subnegotiation-IsPast s w h.current_subnegotiation h.subnegotiation_buffer h v,
      flush_record-IsPast s joined (record { complete = v.complete; stays = v.stays }),
    )

KeepsPast : ConnectionState → Round → Type 0
KeepsPast s stop = Unit
KeepsPast s (go r rest) = IsPast s r.handler

option_round-KeepsPast :
    (s : ConnectionState) (c : ℕ) (bs : Bytes) (r : Receiver)
    → IsPast s r.handler
    → KeepsPast s (option_round c bs r)
unfolding option_round KeepsPast
option_round-KeepsPast s c [] r v = tt
option_round-KeepsPast s c (o ∷ bs) r v = handle_telnet_command-IsPast s c o r.handler v

iac_round-KeepsPast :
    (s : ConnectionState) (w : World) (bs : Bytes) (r : Receiver)
    → IsPast s r.handler
    → KeepsPast s (iac_round w bs r)
unfolding iac_round KeepsPast append_data
iac_round-KeepsPast s w [] r v = tt
iac_round-KeepsPast s w (b ∷ bs) r v =
    ground (arith, standalone-IsPast s w b r v, option_round-KeepsPast s b bs r v)

receive_round-KeepsPast :
    (s : ConnectionState) (w : World) (bs : Bytes) (r : Receiver)
    → IsPast s r.handler
    → KeepsPast s (receive_round w bs r)
unfolding receive_round KeepsPast data_byte
receive_round-KeepsPast s w [] r v = tt
receive_round-KeepsPast s w (b ∷ bs) r v =
    ground (arith, iac_round-KeepsPast s w bs r v, append_data-IsPast s b r v)

go_on-IsPast :
    (s : ConnectionState) (d : Round) (later : Bytes → Receiver → Receiver × Bytes)
    (here : Receiver × Bytes)
    → KeepsPast s d
    → IsPast s here.0.handler
    → ((bs : Bytes) (r : Receiver) → IsPast s r.handler → IsPast s (later bs r).0.handler)
    → IsPast s (go_on d later here).0.handler
unfolding KeepsPast
go_on-IsPast s stop later here k v l = v
go_on-IsPast s (go r rest) later here k v l = l rest r k

receive_loop-IsPast :
    (s : ConnectionState) (w : World) (f : ℕ) (bs : Bytes) (r : Receiver)
    → IsPast s r.handler
    → IsPast s (receive_loop w f bs r).0.handler
unfolding receive_loop
receive_loop-IsPast s w zero bs r v = v
receive_loop-IsPast s w (suc f) bs r v =
    go_on-IsPast s (receive_round w bs r) (receive_loop w f) (r, bs)
      (receive_round-KeepsPast s w bs r v) v (receive_loop-IsPast s w f)

hand_over-IsPast :
    (s : ConnectionState) (bs : Bytes) (h : Handler) → IsPast s h → IsPast s (hand_over bs h)
unfolding hand_over
hand_over-IsPast s bs h v = ground arith

process_telnet_data-IsPast :
    (s : ConnectionState) (w : World) (bs : Bytes) (h : Handler)
    → IsPast s h
    → IsPast s (process_telnet_data w bs h)
unfolding process_telnet_data
process_telnet_data-IsPast s w bs h v =
    let bs' = h.receive_buffer ++ bs in
    let begun : Receiver = record { handler = record h { receive_buffer = [] }; processed = [] } in
    let past : IsPast s begun.handler = record { complete = v.complete; stays = v.stays } in
    let done = receive_loop-IsPast s w (length bs') bs' begun past in
    hand_over-IsPast s _ _ (record { complete = done.complete; stays = done.stays })

process_reads-IsPast :
    (s : ConnectionState) (w : World) (reads : List Bytes) (h : Handler)
    → IsPast s h
    → IsPast s (process_reads w h reads)
unfolding process_reads
process_reads-IsPast s w [] h v = v
process_reads-IsPast s w (x ∷ xs) h v =
    process_reads-IsPast s w xs _ (process_telnet_data-IsPast s w x h v)

reconnected-IsPast :
    (h : Handler)
    → h.handshake_complete ≡ true
    → IsPast negotiating (on_socket_connected (on_socket_disconnected h))
unfolding on_socket_connected on_socket_disconnected perform_handshake send_telnet_command
reconnected-IsPast h c =
    let lost = on_socket_disconnected h in
    record {
      complete =
          set_state-handshake_complete negotiating lost
          ∙ set_state-handshake_complete disconnected h
          ∙ c;
      stays = set_state-state negotiating lost;
    }

-- A handler whose handshake is complete, and whose socket is lost and connected again, stays in the
-- state Negotiating whatever the host then sends.
pub process_reads-reconnected :
    (w : World) (h : Handler) (reads : List Bytes)
    → h.handshake_complete ≡ true
    → (process_reads w (on_socket_connected (on_socket_disconnected h)) reads).state ≡ negotiating
process_reads-reconnected w h reads c =
    (process_reads-IsPast negotiating w reads _ (reconnected-IsPast h c)).stays
