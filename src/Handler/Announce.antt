-- ===== src/Handler/Announce.antt =====
-- The order of the handler's callbacks over any sequence of calls: onConnected comes at most once,
-- and no onDataReceived comes before it.
pub mod Receive
pub mod Reach
use protocol_tn.Base.{
  ℕ, zero, suc, Bool, true, false, not, Option, none, some, List, [], ◌∷◌, ◌++◌, Bytes, is_empty,
  if◌then◌else◌, ◌≡◌, refl, sym, ap, ◌∙◌, ◌⊎◌, inl, inr, arith, Bool-cases,
}
use protocol_tn.Handler.State.{
  Config, ConnectionState, connected, negotiating, disconnected, World, Handler, Event,
  on_send_bytes, on_connected, on_disconnected, on_data_received, on_state_changed, on_log,
  unescaped_iac, length_mismatch, new, call, set_state, framing,
}
use protocol_tn.Handler.Send.{
  send_telnet_command, send_raw_data, send_gds, send_data, perform_handshake,
}
use protocol_tn.Handler.Handshake.{
  complete_handshake, check_handshake_complete, process_handshake_data, send_device_name,
  send_new_environ, handle_subnegotiation, handle_will, handle_do, handle_telnet_command,
  agree_binary, agree_eor, new_environ_reply, read_seed,
}
use protocol_tn.Handler.Repair.{repair_gds_record_length}
use protocol_tn.Telnet.Command.{
  do_command, dont, will, wont, transmit_binary, end_of_record, echo, suppress_go_ahead,
  timing_mark, terminal_type, new_environ,
}
use protocol_tn.Handler.Receive.{
  Receiver, Round, stop, go, go_on, append_data, data_byte, flush_record, standalone, option_round,
  iac_round, receive_round, receive_loop, hand_over, process_telnet_data, on_bytes_received,
  on_socket_connected, on_socket_disconnected,
}

-- Whether the connection is announced behind the callbacks; none where one comes out of order.
abbrev pub announced : Bool → List Event → Option Bool
announced k [] = some k
announced k (on_connected ∷ es) = if k then none else announced true es
announced k (on_data_received bs ∷ es) = if k then announced k es else none
announced k (on_send_bytes bs ∷ es) = announced k es
announced k (on_disconnected ∷ es) = announced k es
announced k (on_state_changed s ∷ es) = announced k es
announced k (on_log m ∷ es) = announced k es

abbrev pub next : Option Bool → Event → Option Bool
next none e = none
next (some k) e = announced k (e ∷ [])

pub announced-append :
    (k : Bool) (es : List Event) (e : Event)
    → announced k (es ++ (e ∷ [])) ≡ next (announced k es) e
announced-append k [] e = refl
announced-append k (on_connected ∷ es) e = ground (arith, announced-append true es e)
announced-append k (on_data_received bs ∷ es) e = ground (arith, announced-append k es e)
announced-append k (on_send_bytes bs ∷ es) e = announced-append k es e
announced-append k (on_disconnected ∷ es) e = announced-append k es e
announced-append k (on_state_changed s ∷ es) e = announced-append k es e
announced-append k (on_log m ∷ es) e = announced-append k es e

-- The callbacks came in order, and tell whether the handshake is complete; nothing waits for its
-- completion.
abbrev pub IsOrderly : Handler → Type 0
IsOrderly h = (announced false h.calls ≡ some h.handshake_complete) × (h.handshake_buffer ≡ [])

pub announced-set_state :
    (s : ConnectionState) (h : Handler)
    → announced false (set_state s h).calls ≡ announced false h.calls
unfolding set_state
announced-set_state s h = ground (arith, announced-append false h.calls (on_state_changed s))

announced-call :
    (e : Event) (h : Handler) → announced false (call e h).calls ≡ next (announced false h.calls) e
announced-call e h = announced-append false h.calls e

pub set_state-handshake_complete :
    (s : ConnectionState) (h : Handler) → (set_state s h).handshake_complete ≡ h.handshake_complete
unfolding set_state
set_state-handshake_complete s h = ground arith

pub set_state-handshake_buffer :
    (s : ConnectionState) (h : Handler) → (set_state s h).handshake_buffer ≡ h.handshake_buffer
unfolding set_state
set_state-handshake_buffer s h = ground arith

complete_handshake-IsOrderly :
    (h : Handler) → announced false h.calls ≡ some false → IsOrderly (complete_handshake h)
unfolding complete_handshake
complete_handshake-IsOrderly h e =
    let h1 = record h { handshake_complete = true } in
    let h2 = set_state connected h1 in
    ground (
      arith,
      announced-set_state connected h1,
      set_state-handshake_complete connected h1,
      set_state-handshake_buffer connected h1,
      announced-append false h2.calls on_connected,
      announced-append false (h2.calls ++ (on_connected ∷ []))
          (on_data_received h.handshake_buffer),
    )

-- A callback that may come at any time.
pub call-IsOrderly :
    (e : Event) (h : Handler)
    → ((k : Bool) → announced k (e ∷ []) ≡ some k)
    → IsOrderly h
    → IsOrderly (call e h)
call-IsOrderly e h n (o, b) =
    (announced-call e h ∙ ap (λ (k : Option Bool). next k e) o ∙ n h.handshake_complete, b)

pub send-IsOrderly :
    (bs : Bytes) (h : Handler) → IsOrderly h → IsOrderly (call (on_send_bytes bs) h)
send-IsOrderly bs h v = call-IsOrderly (on_send_bytes bs) h (λ k. refl) v

pub data-IsOrderly :
    (bs : Bytes) (h : Handler)
    → h.handshake_complete ≡ true
    → IsOrderly h
    → IsOrderly (call (on_data_received bs) h)
data-IsOrderly bs h c (o, b) = ground (arith, announced-append false h.calls (on_data_received bs))

pub check_handshake_complete-IsOrderly :
    (h : Handler)
    → announced false h.calls ≡ some h.handshake_complete
    → (h.binary_negotiated ≡ true) ⊎ (h.handshake_buffer ≡ [])
    → (h.handshake_complete ≡ true → h.handshake_buffer ≡ [])
    → IsOrderly (check_handshake_complete h)
unfolding check_handshake_complete
check_handshake_complete-IsOrderly h o b d = ground (arith, complete_handshake-IsOrderly h)

pub send_telnet_command-IsOrderly :
    (c o : ℕ) (h : Handler) → IsOrderly h → IsOrderly (send_telnet_command c o h)
unfolding send_telnet_command
send_telnet_command-IsOrderly c o h v = send-IsOrderly _ h v

check-IsOrderly : (h : Handler) → IsOrderly h → IsOrderly (check_handshake_complete h)
check-IsOrderly h (o, b) = check_handshake_complete-IsOrderly h o (inr b) (λ c. b)

agree_binary-IsOrderly : (h : Handler) → IsOrderly h → IsOrderly (agree_binary h)
agree_binary-IsOrderly h v = check-IsOrderly (record h { binary_negotiated = true }) v

agree_eor-IsOrderly : (h : Handler) → IsOrderly h → IsOrderly (agree_eor h)
agree_eor-IsOrderly h v = check-IsOrderly (record h { eor_negotiated = true }) v

handle_will-IsOrderly : (o : ℕ) (h : Handler) → IsOrderly h → IsOrderly (handle_will o h)
unfolding handle_will
handle_will-IsOrderly o h v =
    let sent = λ (c : ℕ) (a : ℕ). send_telnet_command-IsOrderly c a h v in
    ground (
      arith,
      agree_binary-IsOrderly (send_telnet_command do_command transmit_binary h)
          (sent do_command transmit_binary),
      agree_eor-IsOrderly (send_telnet_command do_command end_of_record h)
          (sent do_command end_of_record),
      sent do_command echo,
      sent do_command suppress_go_ahead,
      sent dont o,
    )

handle_do-IsOrderly : (o : ℕ) (h : Handler) → IsOrderly h → IsOrderly (handle_do o h)
unfolding handle_do
handle_do-IsOrderly o h v =
    let sent = λ (c : ℕ) (a : ℕ). send_telnet_command-IsOrderly c a h v in
    ground (
      arith,
      sent wont timing_mark,
      agree_binary-IsOrderly (send_telnet_command will transmit_binary h)
          (sent will transmit_binary),
      agree_eor-IsOrderly (send_telnet_command will end_of_record h) (sent will end_of_record),
      sent will terminal_type,
      sent will new_environ,
      sent wont o,
    )

pub handle_telnet_command-IsOrderly :
    (c o : ℕ) (h : Handler) → IsOrderly h → IsOrderly (handle_telnet_command c o h)
unfolding handle_telnet_command
handle_telnet_command-IsOrderly c o h v =
    ground (arith, handle_will-IsOrderly o h v, handle_do-IsOrderly o h v)

send_device_name-IsOrderly : (h : Handler) → IsOrderly h → IsOrderly (send_device_name h)
unfolding send_device_name
send_device_name-IsOrderly h v = check-IsOrderly _ (send-IsOrderly _ h v)

pub handle_subnegotiation-IsOrderly :
    (w : World) (o : ℕ) (bs : Bytes) (h : Handler)
    → IsOrderly h
    → IsOrderly (handle_subnegotiation w o bs h)
unfolding handle_subnegotiation send_new_environ
handle_subnegotiation-IsOrderly w o bs h v = ground (
  arith,
  send_device_name-IsOrderly h v,
  send-IsOrderly (new_environ_reply w (record h { server_seed = read_seed bs h.server_seed })) h v,
)

pub flush_record-IsOrderly :
    (h : Handler) → h.handshake_complete ≡ true → IsOrderly h → IsOrderly (flush_record h)
unfolding flush_record
flush_record-IsOrderly h c v =
    let rec = repair_gds_record_length h.record_buffer in
    let logged = call (on_log length_mismatch) h in
    let l = call-IsOrderly (on_log length_mismatch) h (λ k. refl) v in
    ground (arith, data-IsOrderly rec logged c l, data-IsOrderly rec h c v)
