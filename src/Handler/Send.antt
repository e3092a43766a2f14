-- ===== src/Handler/Send.antt =====
-- tn5250/client/protocol_handler.cpp: what the handler sends.
use protocol_tn.Base.{ℕ, ◌+◌, ◌/◌, ◌%◌, [], ◌∷◌, ◌++◌, Bytes, length, ◌==◌, if◌then◌else◌}
use protocol_tn.Protocol.{
  gds_header_size, gds_record_type_hi, gds_record_type_lo, gds_var_hdr_len, gds_opcode_put_get,
}
use protocol_tn.Telnet.Command.{iac, nop, eor, do_command, will, transmit_binary, end_of_record}
use protocol_tn.Handler.State.{Handler, on_send_bytes, call}

pub heartbeat_payload : Bytes
heartbeat_payload = iac ∷ nop ∷ []

unfoldable pub send_telnet_command : ℕ → ℕ → Handler → Handler
send_telnet_command cmd opt = call (on_send_bytes (iac ∷ cmd ∷ opt ∷ []))

-- The loop of sendRawData.
unfoldable pub escape_iac : Bytes → Bytes
escape_iac [] = []
escape_iac (b ∷ bs) = let rest = b ∷ escape_iac bs in if b == iac then iac ∷ rest else rest

unfoldable pub send_raw_data : Bytes → Handler → Handler
send_raw_data bytes = call (on_send_bytes (escape_iac bytes ++ (iac ∷ eor ∷ [])))

-- The record that sendGDS builds. The length field keeps the low 16 bits of the size.
unfoldable pub gds_record : ℕ → ℕ → Bytes → Bytes
gds_record flags_hi opcode payload =
    let rec_len = gds_header_size + length payload in
    rec_len / 256 % 256
    ∷ rec_len % 256
    ∷ gds_record_type_hi
    ∷ gds_record_type_lo
    ∷ 0x00
    ∷ 0x00
    ∷ gds_var_hdr_len
    ∷ flags_hi
    ∷ 0x00
    ∷ opcode
    ∷ payload

unfoldable pub send_gds : ℕ → ℕ → Bytes → Handler → Handler
send_gds flags_hi opcode payload = send_raw_data (gds_record flags_hi opcode payload)

unfoldable pub send_data : Bytes → Handler → Handler
send_data payload = send_raw_data (gds_record 0x00 gds_opcode_put_get payload)

unfoldable pub perform_handshake : Handler → Handler
perform_handshake h = send_telnet_command will end_of_record (
    send_telnet_command do_command end_of_record
      (send_telnet_command will transmit_binary (send_telnet_command do_command transmit_binary h)))
