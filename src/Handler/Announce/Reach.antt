-- ===== src/Handler/Announce/Reach.antt =====
-- The order of the callbacks in every handler that calls can lead to.
use protocol_tn.Base.{ℕ, some, Bytes, refl, sym, ap, ◌∙◌}
use protocol_tn.Handler.State.{
  Config, ConnectionState, negotiating, disconnected, World, Handler, on_disconnected, new,
  set_state,
}
use protocol_tn.Handler.Send.{send_raw_data, send_gds, send_data, perform_handshake}
use protocol_tn.Handler.Receive.{on_bytes_received, on_socket_connected, on_socket_disconnected}
use protocol_tn.Handler.Announce.{
  IsOrderly, announced-set_state, set_state-handshake_complete, set_state-handshake_buffer,
  call-IsOrderly, send-IsOrderly, send_telnet_command-IsOrderly,
}
use protocol_tn.Handler.Announce.Receive.{process_telnet_data-IsOrderly}

-- Everything that can be called on a handler; `w` is what the outside gives.
pub data Step (w : World) : Handler → Handler → Type 0 where
  connects : (h : Handler) → Step w h (on_socket_connected h)
  receives : (bs : Bytes) (h : Handler) → Step w h (on_bytes_received w bs h)
  disconnects : (h : Handler) → Step w h (on_socket_disconnected h)
  sends_data : (bs : Bytes) (h : Handler) → Step w h (send_data bs h)
  sends_gds :
      (flags_hi opcode : ℕ) (bs : Bytes) (h : Handler) → Step w h (send_gds flags_hi opcode bs h)

-- The handlers that a new one becomes, whatever is called on it.
pub data IsReachable (w : World) (c : Config) : Handler → Type 0 where
  begin : IsReachable w c (new c)
  more : (h h' : Handler) → IsReachable w c h → Step w h h' → IsReachable w c h'

set_state-IsOrderly : (s : ConnectionState) (h : Handler) → IsOrderly h → IsOrderly (set_state s h)
set_state-IsOrderly s h (o, b) = (
  announced-set_state s h ∙ o ∙ ap (λ k. some k) (sym (set_state-handshake_complete s h)),
  set_state-handshake_buffer s h ∙ b,
)

perform_handshake-IsOrderly : (h : Handler) → IsOrderly h → IsOrderly (perform_handshake h)
unfolding perform_handshake
perform_handshake-IsOrderly h v = send_telnet_command-IsOrderly _ _ _ (
    send_telnet_command-IsOrderly _ _ _
      (send_telnet_command-IsOrderly _ _ _ (send_telnet_command-IsOrderly _ _ _ v)))

Step-IsOrderly : (w : World) (h h' : Handler) → Step w h h' → IsOrderly h → IsOrderly h'
unfolding on_socket_connected on_bytes_received on_socket_disconnected send_data send_gds
    send_raw_data
Step-IsOrderly w h _ (connects _) v =
    perform_handshake-IsOrderly _ (set_state-IsOrderly negotiating h v)
Step-IsOrderly w h _ (receives bs _) v = process_telnet_data-IsOrderly w bs h v
Step-IsOrderly w h _ (disconnects _) v =
    call-IsOrderly on_disconnected (set_state disconnected h) (λ k. refl)
      (set_state-IsOrderly disconnected h v)
Step-IsOrderly w h _ (sends_data bs _) v = send-IsOrderly _ h v
Step-IsOrderly w h _ (sends_gds f o bs _) v = send-IsOrderly _ h v

new-IsOrderly : (c : Config) → IsOrderly (new c)
unfolding new
new-IsOrderly c = (refl, refl)

-- Whatever is called on a handler, and in whatever order, its callbacks announce the connection once
-- at most and hand over no data before that, the handshake is complete just when the connection has
-- been announced, and no data waits for the handshake.
pub IsReachable-IsOrderly : (w : World) (c : Config) (h : Handler) → IsReachable w c h → IsOrderly h
IsReachable-IsOrderly w c _ begin = new-IsOrderly c
IsReachable-IsOrderly w c _ (more h h' r s) =
    Step-IsOrderly w h h' s (IsReachable-IsOrderly w c h r)
