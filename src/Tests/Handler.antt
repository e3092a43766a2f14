-- ===== src/Tests/Handler.antt =====
-- A session of the handler: the host of the tests greets, and sends records.
use protocol_tn.Base.{◌+◌, [], ◌∷◌, ◌++◌, Bytes, take, drop, ◌≡◌, true, inl, refl, arith}
use protocol_tn.CodePage.{cp037}
use protocol_tn.Protocol.{order_sba}
use protocol_tn.Telnet.Command.{
  iac, sb, se, eor, will, do_command, terminal_type, transmit_binary, end_of_record,
}
use protocol_tn.Decoder.Stream.{carries_payload, new as new_decoder}
use protocol_tn.Decoder.Stream.Records.{concat, parse_reads}
use protocol_tn.Decoder.Grammar.{text, address}
use protocol_tn.Decoder.Grammar.Commands.{clear_unit, display, roll_lines}
use protocol_tn.Decoder.Grammar.Stream.{HostRecord, IsHostRecord, all_bytes, all_meanings}
use protocol_tn.Handler.State.{
  Handler, World, Config, new, set_state, call, connected, negotiating, on_send_bytes,
  on_state_changed, on_connected, on_data_received,
}
use protocol_tn.Handler.Send.{
  escape_iac, gds_record, send_data, perform_handshake, send_telnet_command,
}
use protocol_tn.Handler.Handshake.{
  complete_handshake, check_handshake_complete, send_device_name, handle_subnegotiation,
  handle_will, handle_do, handle_telnet_command,
}
use protocol_tn.Handler.Receive.{
  on_socket_disconnected, append_data, flush_record, is_unescaped, standalone, option_round,
  iac_round, data_byte, receive_round, receive_loop, hand_over, process_telnet_data,
  on_socket_connected, on_bytes_received,
}
use protocol_tn.Handler.Receive.Loop.{receive_loop_fuel}
use protocol_tn.Handler.Receive.Framed.{
  start, IsFramed, process_telnet_data-append, process_telnet_data-IsFramed,
}
use protocol_tn.Handler.RoundTrip.{IsAtStart, process-gds_record}
use protocol_tn.Handler.Announce.{IsOrderly}
use protocol_tn.Handler.Announce.Reach.{
  IsReachable, begin, more, connects, receives, sends_data, IsReachable-IsOrderly,
}
use protocol_tn.Handler.Completes.{terminal_type_request, process-terminal_type_request}
use protocol_tn.Handler.Reconnect.{process_reads-reconnected}
use protocol_tn.Session.{wire, process_reads, deliver, session_reads}

abbrev pub world : World
world = record { des = record { ecb = λ k p. p; cbc = λ k i p. p }; random_byte = λ n i. n + i }

abbrev pub config : Config
config = record {
  device_name = b'D' ∷ [];
  terminal_type = b'T' ∷ [];
  username = [];
  password = [];
  code_page = cp037;
}

-- WILL and DO for BINARY and END-OF-RECORD, and SB TERMINAL-TYPE SEND.
abbrev greeting : Bytes
greeting =
    iac ∷ will ∷ transmit_binary ∷ iac ∷ do_command ∷ end_of_record ∷ iac ∷ sb ∷ terminal_type
    ∷ 0x01 ∷ iac ∷ se ∷ []

-- The handler behind the handshake.
abbrev pub greeted : Handler
greeted = process_telnet_data world greeting (on_socket_connected (new config))

greeted_calls :
    greeted.calls
    ≡ on_state_changed negotiating
      ∷ on_send_bytes (iac ∷ do_command ∷ transmit_binary ∷ [])
      ∷ on_send_bytes (iac ∷ will ∷ transmit_binary ∷ [])
      ∷ on_send_bytes (iac ∷ do_command ∷ end_of_record ∷ [])
      ∷ on_send_bytes (iac ∷ will ∷ end_of_record ∷ [])
      ∷ on_send_bytes (iac ∷ do_command ∷ transmit_binary ∷ [])
      ∷ on_send_bytes (iac ∷ will ∷ end_of_record ∷ [])
      ∷ on_send_bytes (iac ∷ sb ∷ terminal_type ∷ 0x00 ∷ b'T' ∷ iac ∷ se ∷ [])
      ∷ on_state_changed connected
      ∷ on_connected
      ∷ []
unfolding process_telnet_data hand_over receive_loop receive_round iac_round option_round
    is_unescaped standalone data_byte append_data flush_record handle_telnet_command handle_will
    handle_do handle_subnegotiation send_device_name check_handshake_complete complete_handshake
    set_state send_telnet_command perform_handshake on_socket_connected new
greeted_calls = refl

pub greeted-IsAtStart : IsAtStart greeted
unfolding process_telnet_data hand_over receive_loop receive_round iac_round option_round
    is_unescaped standalone data_byte append_data flush_record handle_telnet_command handle_will
    handle_do handle_subnegotiation send_device_name check_handshake_complete complete_handshake
    set_state send_telnet_command perform_handshake on_socket_connected new
greeted-IsAtStart = record {
  framed = record { complete = refl; eor = refl };
  no_subnegotiation = refl;
  nothing_left = refl;
  no_record = refl;
}

greeted-IsReachable : IsReachable world config greeted
unfolding on_bytes_received
greeted-IsReachable = more _ _ (more _ _ begin (connects _)) (receives greeting _)

-- A record that clears the screen and writes a text with an address behind it, and one that rolls.
abbrev clears : HostRecord
clears = record {
  reserved1 = 0;
  reserved2 = 0;
  flags1 = 0;
  flags2 = 0;
  opcode = 0x03;
  first = clear_unit;
  more = display 0x00 0x08 (text 0xFF ∷ address order_sba 1 2 ∷ []) ∷ [];
}

abbrev rolls : HostRecord
rolls = record {
  reserved1 = 0;
  reserved2 = 0;
  flags1 = 0;
  flags2 = 0;
  opcode = 0x02;
  first = roll_lines 0x80 3 2 23;
  more = [];
}

clears-IsHostRecord : IsHostRecord clears
clears-IsHostRecord = record {
  fits = omega arith;
  read = unfold carries_payload in refl;
  formed = (
    tt,
    (
      (
        (
          record {
            no_esc = omega arith;
            no_soh = omega arith;
            no_sba = omega arith;
            no_ic = omega arith;
            no_mc = omega arith;
            no_ra = omega arith;
            no_ea = omega arith;
            no_td = omega arith;
            no_wdsf = omega arith;
            no_sf = omega arith;
            no_trigger = omega arith;
          },
          (inl refl, tt),
        ),
        tt,
      ),
      tt,
    ),
  );
}

rolls-IsHostRecord : IsHostRecord rolls
rolls-IsHostRecord = record {
  fits = omega arith;
  read = unfold carries_payload in refl;
  formed = ((omega arith, omega arith, omega arith, omega arith, omega arith), tt);
}

-- The two records in three reads, the first of which ends behind an IAC.
abbrev sent : Bytes
sent = wire (all_bytes (clears ∷ rolls ∷ []))

sent_in_three : concat (take 17 sent ∷ take 5 (drop 17 sent) ∷ drop 22 sent ∷ []) ≡ sent
unfolding escape_iac
sent_in_three = refl

session_reads_example :
    (process_reads world greeted (take 17 sent ∷ take 5 (drop 17 sent) ∷ drop 22 sent ∷ [])
      ≡ deliver (all_bytes (clears ∷ rolls ∷ [])) greeted)
    × (parse_reads new_decoder (all_bytes (clears ∷ rolls ∷ []))
        ≡ record new_decoder { calls = all_meanings (clears ∷ rolls ∷ []) })
session_reads_example =
    session_reads world greeted new_decoder clears (rolls ∷ []) (take 17 sent)
      (take 5 (drop 17 sent) ∷ drop 22 sent ∷ []) greeted-IsAtStart refl
      (clears-IsHostRecord, (rolls-IsHostRecord, tt)) sent_in_three

process_telnet_data-append_example :
    process_telnet_data world (drop 17 sent) (process_telnet_data world (take 17 sent) greeted)
    ≡ process_telnet_data world (take 17 sent ++ drop 17 sent) greeted
process_telnet_data-append_example =
    process_telnet_data-append world (take 17 sent) (drop 17 sent) greeted greeted-IsAtStart.framed

process-gds_record_example :
    process_telnet_data world
      (escape_iac (gds_record 0x80 0x03 (0xFF ∷ 0xEF ∷ [])) ++ (iac ∷ eor ∷ []))
      greeted
    ≡ call (on_data_received (gds_record 0x80 0x03 (0xFF ∷ 0xEF ∷ []))) greeted
process-gds_record_example =
    process-gds_record world 0x80 0x03 (0xFF ∷ 0xEF ∷ []) greeted greeted-IsAtStart (omega arith)

process_telnet_data-IsFramed_example :
    IsFramed (process_telnet_data world (iac ∷ 0xF9 ∷ 0x40 ∷ []) greeted)
process_telnet_data-IsFramed_example =
    process_telnet_data-IsFramed world (iac ∷ 0xF9 ∷ 0x40 ∷ []) greeted greeted-IsAtStart.framed

receive_loop_fuel_example :
    receive_loop world 12 greeting (start greeted) ≡ receive_loop world 20 greeting (start greeted)
receive_loop_fuel_example =
    receive_loop_fuel world 12 20 greeting (start greeted) (omega arith) (omega arith)

-- The handler behind the handshake, which has then sent a record.
IsReachable-IsOrderly_example : IsOrderly (send_data (0xFF ∷ []) greeted)
IsReachable-IsOrderly_example =
    IsReachable-IsOrderly world config (send_data (0xFF ∷ []) greeted)
      (more _ _ greeted-IsReachable (sends_data _ _))

-- The host asks at once.
abbrev fresh : Handler
fresh = on_socket_connected (new config)

process-terminal_type_request_example :
    ((process_telnet_data world terminal_type_request fresh).handshake_complete ≡ true)
    × ((process_telnet_data world terminal_type_request fresh).state ≡ connected)
    × ((process_telnet_data world terminal_type_request fresh).receive_buffer ≡ [])
process-terminal_type_request_example =
    process-terminal_type_request world fresh
      (unfold on_socket_connected perform_handshake send_telnet_command set_state new in refl)
      (unfold on_socket_connected perform_handshake send_telnet_command set_state new in refl)

process_reads-reconnected_example :
    (process_reads world
      (on_socket_connected (on_socket_disconnected greeted))
      (greeting ∷ [])).state
    ≡ negotiating
process_reads-reconnected_example =
    process_reads-reconnected world greeted (greeting ∷ []) greeted-IsAtStart.framed.complete
