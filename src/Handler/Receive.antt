-- ===== src/Handler/Receive.antt =====
-- tn5250/client/protocol_handler.cpp: ProtocolHandler::processTelnetData and the calls from the
-- socket. A position i in the receive buffer is the list of the bytes from i on.
pub mod Loop
pub mod Framed
use protocol_tn.Base.{
  ℕ, zero, suc, ◌+◌, Bool, true, false, not, ◌&&◌, ◌||◌, List, [], ◌∷◌, ◌++◌, Bytes, is_empty,
  length, ltb, ◌==◌, if◌then◌else◌,
}
use protocol_tn.Telnet.Command.{iac, se, eor, is_standalone_telnet_command}
use protocol_tn.Handler.State.{
  Handler, World, disconnected, negotiating, on_disconnected, on_data_received, on_log,
  unescaped_iac, length_mismatch, call, set_state, framing,
}
use protocol_tn.Handler.Send.{perform_handshake}
use protocol_tn.Handler.Repair.{repair_gds_record_length}
use protocol_tn.Handler.Handshake.{
  process_handshake_data, handle_subnegotiation, handle_telnet_command,
}

-- The handler in the loop, with the local vector `processed`.
pub record Receiver : Type 0 where
  pub handler : Handler
  pub processed : Bytes

unfoldable pub append_data : ℕ → Receiver → Receiver
append_data b r =
    let h = r.handler in
    if framing h
    then record {
      handler = record h { record_buffer = h.record_buffer ++ (r.processed ++ (b ∷ [])) };
      processed = [];
    }
    else record r { processed = r.processed ++ (b ∷ []) }

-- Equality of two buffers.
unfoldable pub same : Bytes → Bytes → Bool
same [] [] = true
same [] (y ∷ ys) = false
same (x ∷ xs) [] = false
same (x ∷ xs) (y ∷ ys) = (x == y) && same xs ys

unfoldable pub flush_record : Handler → Handler
flush_record h =
    let rec = repair_gds_record_length h.record_buffer in
    let logged = if same rec h.record_buffer then h else call (on_log length_mismatch) h in
    if is_empty h.record_buffer
    then h
    else call (on_data_received rec) (record logged { record_buffer = [] })

-- Inside a record.
abbrev pub mid_record : Handler → Bool
mid_record h = framing h && not (is_empty h.record_buffer)

-- IAC and `next` are data: the host did not double a 0xFF.
unfoldable pub is_unescaped : ℕ → Handler → Bool
is_unescaped next h =
    not h.in_subnegotiation && (ltb next eor || (mid_record h && not (next == eor)))

-- A command that takes no option.
unfoldable pub standalone : World → ℕ → Receiver → Receiver
standalone w next r =
    let h = r.handler in
    if next == se
    then if h.in_subnegotiation
      then record r {
        handler =
            record (handle_subnegotiation w h.current_subnegotiation h.subnegotiation_buffer h) {
              subnegotiation_buffer = [];
              in_subnegotiation = false;
            };
      }
      else r
    else if (next == eor) && framing h
    then record {
      handler = flush_record (record h { record_buffer = r.processed ++ h.record_buffer });
      processed = [];
    }
    else r

pub data Round : Type 0 where
  stop : Round
  go : Receiver → Bytes → Round

-- A command and its option, which may not have come yet.
unfoldable pub option_round : ℕ → Bytes → Receiver → Round
option_round cmd [] r = stop
option_round cmd (opt ∷ rest) r =
    go (record r { handler = handle_telnet_command cmd opt r.handler }) rest

-- Behind an IAC.
unfoldable pub iac_round : World → Bytes → Receiver → Round
iac_round w [] r = stop
iac_round w (next ∷ rest) r =
    if next == iac
    then go (append_data 0xFF r) rest
    else if is_unescaped next r.handler
    then go (append_data 0xFF (record r { handler = call (on_log (unescaped_iac next)) r.handler }))
        (next ∷ rest)
    else if is_standalone_telnet_command next
    then go (standalone w next r) rest
    else option_round next rest r

unfoldable pub data_byte : ℕ → Receiver → Receiver
data_byte b r =
    let h = r.handler in
    if h.in_subnegotiation
    then record r {
      handler = record h { subnegotiation_buffer = h.subnegotiation_buffer ++ (b ∷ []) };
    }
    else append_data b r

unfoldable pub receive_round : World → Bytes → Receiver → Round
receive_round w [] r = stop
receive_round w (b ∷ rest) r = if b == iac then iac_round w rest r else go (data_byte b r) rest

-- The rest of the loop behind a round.
abbrev pub go_on :
    Round → (Bytes → Receiver → Receiver × Bytes) → Receiver × Bytes → Receiver × Bytes
go_on stop later here = here
go_on (go r rest) later here = later rest r

-- The loop, and the bytes that it leaves. Fuel: each round takes a byte at least.
unfoldable pub receive_loop : World → ℕ → Bytes → Receiver → Receiver × Bytes
receive_loop w zero bs r = (r, bs)
receive_loop w (suc fuel) bs r = go_on (receive_round w bs r) (receive_loop w fuel) (r, bs)

-- What is left in `processed` is handed over, or ends the handshake.
unfoldable pub hand_over : Bytes → Handler → Handler
hand_over processed h =
    if is_empty processed
    then h
    else if h.handshake_complete
    then call (on_data_received processed) h
    else process_handshake_data processed
        (record h { handshake_buffer = h.handshake_buffer ++ processed })

-- While the loop runs, the buffer is its argument, and the field is empty.
unfoldable pub process_telnet_data : World → Bytes → Handler → Handler
process_telnet_data w input h =
    let bs = h.receive_buffer ++ input in
    let start : Receiver = record { handler = record h { receive_buffer = [] }; processed = [] } in
    let done = receive_loop w (length bs) bs start in
    hand_over done.0.processed (record done.0.handler { receive_buffer = done.1 })

unfoldable pub on_bytes_received : World → Bytes → Handler → Handler
on_bytes_received = process_telnet_data

unfoldable pub on_socket_connected : Handler → Handler
on_socket_connected h = perform_handshake (set_state negotiating h)

unfoldable pub on_socket_disconnected : Handler → Handler
on_socket_disconnected h = call on_disconnected (set_state disconnected h)
