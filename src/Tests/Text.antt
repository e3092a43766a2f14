-- ===== src/Tests/Text.antt =====
-- Runs of the texts that the code writes, of the calls of OpenSSL, and of the two Telnet parsers, and
-- the theorems at them.
use protocol_tn.Base.{
  true, false, Option, none, some, List, [], ◌∷◌, ◌++◌, Bytes, length, replicate, ◌==◌, ◌≡◌, refl,
  ◌≢◌, arith,
}
use protocol_tn.Utils.Hex.{to_hex_string_padded_generic, digits}
use protocol_tn.Utils.Text.Lines.{codes, bar, corner, prompt, write_lines}
use protocol_tn.Utils.Text.OneLine.{indented}
use protocol_tn.Telnet.Command.{iac, ayt, negotiate_about_window_size}
use protocol_tn.Telnet.Names.{telnet_command_to_string, telnet_option_to_string}
use protocol_tn.Telnet.Client.Hearing
use protocol_tn.Telnet.Client
use protocol_tn.Message.Describe.Names.{
  opcode_description, command_description, order_description, record_type_description,
}
use protocol_tn.Message.Order.{ic}
use protocol_tn.Message.Describe.{describe, describe_order}
use protocol_tn.Message.Describe.Nesting.{describe-indented}
use protocol_tn.Names.{descriptions_differ}
use protocol_tn.IbmRSeed.Size.{KeepsSize}
use protocol_tn.IbmRSeed.Evp.{
  Mode, ecb_mode, cbc_mode, encrypt, Evp, absent, freed, use_all, ecb_encrypt, cbc_encrypt,
  des_encrypt-use_all, IsAvailable, des_of, des_of-KeepsSize,
}
use protocol_tn.Handler.State.{Handler, new, set_state}
use protocol_tn.Session.{process_reads}
use protocol_tn.Handler.Completes.{terminal_type_request}
use protocol_tn.Handler.Send.{perform_handshake, send_telnet_command}
use protocol_tn.Handler.Handshake.{
  complete_handshake, check_handshake_complete, send_device_name, handle_subnegotiation,
  handle_will, handle_do, handle_telnet_command,
}
use protocol_tn.Handler.Receive.{
  append_data, flush_record, is_unescaped, standalone, option_round, iac_round, data_byte,
  receive_round, receive_loop, hand_over, process_telnet_data, on_socket_connected,
}
use protocol_tn.Handler.Unframed.Tokens.{Token, byte, command, IsUnframed}
use protocol_tn.Handler.Unframed.{hears}
use protocol_tn.Handler.Unframed
use protocol_tn.TelnetParsers.{
  feed_reads, with_calls, all_events, data_of, process_reads-feed_reads,
}
use protocol_tn.Tests.Handler.{world, config}
use protocol_tn.Tests.Message.{put_get}

window_size_named : telnet_option_to_string negotiate_about_window_size ≡ codes "NAWS"
unfolding telnet_option_to_string
window_size_named = refl

-- The character 0x41, and not its digits.
command_named : command_description 0x41 ≡ codes "Unknown (0x0A)"
unfolding command_description
command_named = refl

cursor_described :
    describe_order 1 (ic (record { code = 0x03; row_address = 0x0A; column_address = 0x42 }))
    ≡ bar
      ++ (codes "<OrderIcInsertCursor>"
          ++ (0x0A
              ∷ (bar
                  ++ (bar
                      ++ (codes "code     : 0x03 (Insert Cursor)"
                          ++ (0x0A
                              ∷ (bar
                                  ++ (bar
                                      ++ (codes "rowAddress    : 0x0a ("
                                          ++ (0x0A
                                              ∷ (codes ")"
                                                  ++ (0x0A
                                                      ∷ (bar
                                                          ++ (bar
                                                            ++ (codes "columnAddress : 0x42 (B)"
                                                            ++ (0x0A
                                                            ∷ (bar
                                                            ++ (corner
                                                            ++ (0x0A ∷ [])))))))))))))))))))
unfolding describe_order write_lines prompt order_description to_hex_string_padded_generic digits
cursor_described = refl

describe-indented_example : describe 1 put_get ≡ indented true (describe 0 put_get)
describe-indented_example = describe-indented 0 put_get refl

descriptions_differ_example :
    (telnet_command_to_string 0x01 ≢ telnet_command_to_string 0x11)
    × (telnet_option_to_string 0x01 ≢ telnet_option_to_string 0x11)
    × (opcode_description 0x01 ≢ opcode_description 0x11)
    × (command_description 0x01 ≢ command_description 0x11)
    × (order_description 0x01 ≢ order_description 0x11)
    × (record_type_description 0x12A0 ≢ record_type_description 0)
descriptions_differ_example =
    descriptions_differ 0x01 0x11 0x12A0 0 (omega arith) (omega arith) (omega arith) (omega arith)
      (omega arith) (omega arith)

-- An OpenSSL that copies the text, and whose EncryptFinal fails in one of the modes.
abbrev ends : Mode → Option Bytes
ends ecb_mode = some []
ends cbc_mode = none

abbrev copying : Evp
copying = record {
  has_context = true;
  init = λ mode key iv. length key == 8;
  update = λ mode key iv text. some text;
  final = λ mode key iv text. ends mode;
}

copied : (ecb_encrypt copying true (replicate 8 1) (replicate 8 2)).1 ≡ replicate 8 2
unfolding ecb_encrypt encrypt
copied = refl

des_encrypt-use_all_example :
    (use_all true absent (ecb_encrypt copying false (replicate 8 1) (replicate 8 2)).0 ≡ freed)
    × (use_all true absent
          (cbc_encrypt copying false (replicate 8 1) (replicate 8 1) (replicate 8 2)).0
        ≡ freed)
des_encrypt-use_all_example =
    des_encrypt-use_all copying false (replicate 8 1) (replicate 8 1) (replicate 8 2)

abbrev available : Evp
available = record copying { init = λ mode key iv. true; final = λ mode key iv text. some [] }

available-IsAvailable : IsAvailable available
available-IsAvailable = record {
  context = refl;
  inits = λ mode key iv h. refl;
  updates = λ mode key iv text h k. (text, refl, refl);
  finishes = λ mode key iv text h k. refl;
}

available-KeepsSize : KeepsSize (des_of available)
available-KeepsSize = des_of-KeepsSize available available-IsAvailable

-- A stream with 0xFF in its data and a command, whose second read ends in half of a doubled 0xFF.
abbrev stream : List Token
stream = byte 0x41 ∷ command ayt ∷ byte 0xFF ∷ byte 0x42 ∷ []

abbrev stream_reads : List Bytes
stream_reads = (0x41 ∷ iac ∷ []) ∷ (ayt ∷ iac ∷ []) ∷ (iac ∷ 0x42 ∷ []) ∷ []

-- A handler that the host has asked for the terminal type, and nothing else.
abbrev asked : Handler
asked = process_telnet_data world terminal_type_request (on_socket_connected (new config))

asked-IsUnframed : IsUnframed asked × (asked.receive_buffer ≡ [])
unfolding process_telnet_data hand_over receive_loop receive_round iac_round option_round
    is_unescaped standalone data_byte append_data flush_record handle_telnet_command handle_will
    handle_do handle_subnegotiation send_device_name check_handshake_complete complete_handshake
    set_state send_telnet_command perform_handshake on_socket_connected new
asked-IsUnframed = (record { complete = refl; no_eor = refl; no_subnegotiation = refl }, refl)

process_reads-feed_reads_example :
    (Unframed.heard (process_reads world asked stream_reads)
      ≡ hears (0x41 ∷ 0xFF ∷ 0x42 ∷ []) [] (Unframed.heard asked))
    × (Hearing.heard (feed_reads Client.new stream_reads)
        ≡ with_calls (all_events stream) Client.new)
    × (data_of (all_events stream) ≡ 0x41 ∷ 0xFF ∷ 0x42 ∷ [])
process_reads-feed_reads_example =
    process_reads-feed_reads world stream_reads stream asked Client.new asked-IsUnframed.0
      asked-IsUnframed.1 refl (tt, (refl, (tt, (tt, tt)))) refl
