-- ===== src/Handler/Announce/Receive.antt =====
-- The receive loop keeps the order of the callbacks.
use protocol_tn.Base.{
  ℕ, zero, suc, true, false, some, [], ◌∷◌, ◌++◌, Bytes, is_empty, ◌≡◌, refl, arith,
}
use protocol_tn.Handler.State.{World, Handler, on_log, unescaped_iac, call, framing}
use protocol_tn.Handler.Handshake.{process_handshake_data}
use protocol_tn.Handler.Receive.{
  Receiver, Round, stop, go, go_on, append_data, data_byte, standalone, option_round, iac_round,
  receive_round, receive_loop, hand_over, process_telnet_data,
}
use protocol_tn.Handler.Announce.{
  announced, IsOrderly, check_handshake_complete-IsOrderly, call-IsOrderly, data-IsOrderly,
  handle_telnet_command-IsOrderly, handle_subnegotiation-IsOrderly, flush_record-IsOrderly,
}

framing_complete : (h : Handler) → framing h ≡ true → h.handshake_complete ≡ true
framing_complete h e = ground arith

append_data-IsOrderly :
    (b : ℕ) (r : Receiver) → IsOrderly r.handler → IsOrderly (append_data b r).handler
unfolding append_data
append_data-IsOrderly b r v = ground arith

data_byte-IsOrderly :
    (b : ℕ) (r : Receiver) → IsOrderly r.handler → IsOrderly (data_byte b r).handler
unfolding data_byte
data_byte-IsOrderly b r v = ground (arith, append_data-IsOrderly b r v)

standalone-IsOrderly :
    (w : World) (b : ℕ) (r : Receiver) → IsOrderly r.handler → IsOrderly (standalone w b r).handler
unfolding standalone
standalone-IsOrderly w b r v =
    let h = r.handler in
    let joined = record h { record_buffer = r.processed ++ h.record_buffer } in
    ground (
      arith,
      handle_subnegotiation-IsOrderly w h.current_subnegotiation h.subnegotiation_buffer h v,
      λ (e : framing h ≡ true). flush_record-IsOrderly joined (framing_complete h e) v,
    )

-- The handler behind a round stays orderly.
KeepsOrder : Round → Type 0
KeepsOrder stop = Unit
KeepsOrder (go r rest) = IsOrderly r.handler

option_round-KeepsOrder :
    (c : ℕ) (bs : Bytes) (r : Receiver) → IsOrderly r.handler → KeepsOrder (option_round c bs r)
unfolding option_round KeepsOrder
option_round-KeepsOrder c [] r v = tt
option_round-KeepsOrder c (o ∷ bs) r v = handle_telnet_command-IsOrderly c o r.handler v

iac_round-KeepsOrder :
    (w : World) (bs : Bytes) (r : Receiver) → IsOrderly r.handler → KeepsOrder (iac_round w bs r)
unfolding iac_round KeepsOrder
iac_round-KeepsOrder w [] r v = tt
iac_round-KeepsOrder w (b ∷ bs) r v =
    let logged = record r { handler = call (on_log (unescaped_iac b)) r.handler } in
    ground (
      arith,
      append_data-IsOrderly 0xFF r v,
      append_data-IsOrderly 0xFF logged
          (call-IsOrderly (on_log (unescaped_iac b)) r.handler (λ k. refl) v),
      standalone-IsOrderly w b r v,
      option_round-KeepsOrder b bs r v,
    )

receive_round-KeepsOrder :
    (w : World) (bs : Bytes) (r : Receiver)
    → IsOrderly r.handler
    → KeepsOrder (receive_round w bs r)
unfolding receive_round KeepsOrder
receive_round-KeepsOrder w [] r v = tt
receive_round-KeepsOrder w (b ∷ bs) r v =
    ground (arith, iac_round-KeepsOrder w bs r v, data_byte-IsOrderly b r v)

go_on-IsOrderly :
    (d : Round) (later : Bytes → Receiver → Receiver × Bytes) (here : Receiver × Bytes)
    → KeepsOrder d
    → IsOrderly here.0.handler
    → ((bs : Bytes) (r : Receiver) → IsOrderly r.handler → IsOrderly (later bs r).0.handler)
    → IsOrderly (go_on d later here).0.handler
unfolding KeepsOrder
go_on-IsOrderly stop later here k v l = v
go_on-IsOrderly (go r rest) later here k v l = l rest r k

receive_loop-IsOrderly :
    (w : World) (f : ℕ) (bs : Bytes) (r : Receiver)
    → IsOrderly r.handler
    → IsOrderly (receive_loop w f bs r).0.handler
unfolding receive_loop
receive_loop-IsOrderly w zero bs r v = v
receive_loop-IsOrderly w (suc f) bs r v =
    go_on-IsOrderly (receive_round w bs r) (receive_loop w f) (r, bs)
      (receive_round-KeepsOrder w bs r v) v (receive_loop-IsOrderly w f)

process_handshake_data-IsOrderly :
    (bs : Bytes) (h : Handler)
    → announced false h.calls ≡ some h.handshake_complete
    → h.handshake_complete ≡ false
    → is_empty bs ≡ false
    → IsOrderly (process_handshake_data bs h)
unfolding process_handshake_data
process_handshake_data-IsOrderly bs h o c e =
    ground (arith, check_handshake_complete-IsOrderly (record h { binary_negotiated = true }) o)

hand_over-IsOrderly : (bs : Bytes) (h : Handler) → IsOrderly h → IsOrderly (hand_over bs h)
unfolding hand_over
hand_over-IsOrderly bs h v = ground (
  arith,
  data-IsOrderly bs h,
  process_handshake_data-IsOrderly bs (record h { handshake_buffer = h.handshake_buffer ++ bs })
      v.0,
)

pub process_telnet_data-IsOrderly :
    (w : World) (bs : Bytes) (h : Handler) → IsOrderly h → IsOrderly (process_telnet_data w bs h)
unfolding process_telnet_data
process_telnet_data-IsOrderly w bs h v = hand_over-IsOrderly _ _ (
    receive_loop-IsOrderly w _ (h.receive_buffer ++ bs)
      (record { handler = record h { receive_buffer = [] }; processed = [] }) v)
