-- ===== src/Handler/Handshake.antt =====
-- tn5250/client/protocol_handler.cpp: the handshake, the answers to Telnet commands, and the
-- subnegotiations.
use Prim.Native.String.{String}
use protocol_tn.Base.{
  ℕ, zero, suc, ◌+◌, ◌/◌, ◌%◌, Bool, true, false, not, ◌&&◌, ◌||◌, [], ◌∷◌, ◌++◌, Bytes, is_empty,
  length, take, drop, ltb, ◌==◌, if◌then◌else◌,
}
use protocol_tn.Telnet.Command.{
  iac, se, sb, will, wont, do_command, dont, transmit_binary, echo, suppress_go_ahead, timing_mark,
  terminal_type, end_of_record, new_environ,
}
use protocol_tn.CodePage.{number}
use protocol_tn.IbmRSeed.{encrypt_password, generate_client_seed, escape_new_environ}
use protocol_tn.Handler.State.{
  Handler, World, connected, on_send_bytes, on_connected, on_data_received, call, set_state,
}
use protocol_tn.Utils.Text.Lines.{codes}
use protocol_tn.Handler.Send.{send_telnet_command}

-- The handshake is over: the state changes, and what came before is handed over.
unfoldable pub complete_handshake : Handler → Handler
complete_handshake h =
    let h' = call on_connected (set_state connected (record h { handshake_complete = true })) in
    if is_empty h.handshake_buffer
    then h'
    else record (call (on_data_received h.handshake_buffer) h') { handshake_buffer = [] }

unfoldable pub check_handshake_complete : Handler → Handler
check_handshake_complete h =
    if not h.handshake_complete
      && h.binary_negotiated
      && (h.terminal_type_sent || not (is_empty h.handshake_buffer))
    then complete_handshake h
    else h

unfoldable pub process_handshake_data : Bytes → Handler → Handler
process_handshake_data bytes h =
    if not h.handshake_complete && not (is_empty bytes)
    then check_handshake_complete (record h { binary_negotiated = true })
    else h

unfoldable pub send_device_name : Handler → Handler
send_device_name h =
    let sent =
      on_send_bytes
        (iac ∷ sb ∷ terminal_type ∷ 0x00 ∷ (h.config.terminal_type ++ (iac ∷ se ∷ []))) in
    check_handshake_complete
      (record (call sent h) { terminal_type_sent = true; binary_negotiated = true })

-- std::to_string of a number below 1000.
unfoldable pub to_decimal : ℕ → Bytes
to_decimal n =
    (if ltb n 100 then [] else (b'0' + n / 100 % 10) ∷ [])
    ++ ((if ltb n 10 then [] else (b'0' + n / 10 % 10) ∷ []) ++ ((b'0' + n % 10) ∷ []))

-- USERVAR, a name, VALUE and a value.
abbrev pub variable : String → Bytes → Bytes
variable name value = 0x03 ∷ (codes name ++ (0x01 ∷ value))

-- The substitute password, where the host sent a seed and the user gave a name and a password. A
-- seed is drawn in that case alone.
unfoldable pub substitute_password : World → Handler → Bytes
substitute_password w h =
    encrypt_password w.des h.config.username h.config.password h.server_seed
      (generate_client_seed (w.random_byte h.draws)) h.config.code_page

abbrev pub wants_encryption : Handler → Bool
wants_encryption h =
    (length h.server_seed == 8)
    && not (is_empty h.config.username)
    && not (is_empty h.config.password)

unfoldable pub seed_variables : World → Handler → Bytes
seed_variables w h =
    let pw_sub = substitute_password w h in
    if wants_encryption h && not (is_empty pw_sub)
    then variable "IBMRSEED" (escape_new_environ (generate_client_seed (w.random_byte h.draws)))
      ++ variable "IBMSUBSPW" (escape_new_environ pw_sub)
    else variable "IBMRSEED" []

unfoldable pub new_environ_reply : World → Handler → Bytes
new_environ_reply w h =
    iac
    ∷ sb
    ∷ new_environ
    ∷ 0x00
    ∷ (variable "DEVNAME" h.config.device_name
        ++ (seed_variables w h
            ++ (variable "IBMSUBSVAR" []
                ++ (variable "KBDTYPE" (codes "USB")
                    ++ (variable "CODEPAGE" (to_decimal (number h.config.code_page))
                        ++ (variable "CHARSET" (codes "697") ++ (iac ∷ se ∷ [])))))))

unfoldable pub send_new_environ : World → Handler → Handler
send_new_environ w h =
    call (on_send_bytes (new_environ_reply w h))
      (record h { draws = if wants_encryption h then h.draws + 1 else h.draws })

-- The bytes of a variable's name, up to VAR, VALUE or USERVAR.
unfoldable pub name_span : Bytes → ℕ
name_span [] = 0
name_span (b ∷ bs) = if (b == 0x00) || (b == 0x01) || (b == 0x03) then 0 else suc (name_span bs)

-- std::memcmp with the tag.
unfoldable pub starts_with : Bytes → Bytes → Bool
starts_with [] bs = true
starts_with (x ∷ xs) [] = false
starts_with (x ∷ xs) (b ∷ bs) = (b == x) && starts_with xs bs

unfoldable pub seed_in : Bytes → Bytes → Bytes
seed_in name seed =
    if ltb 8 (length name) && starts_with (codes "IBMRSEED") name then drop 8 name else seed

-- The loop over a SEND request, behind its first byte; the last seed found stays.
unfoldable pub find_seed : ℕ → Bytes → Bytes → Bytes
find_seed zero seed bs = seed
find_seed (suc fuel) seed [] = seed
find_seed (suc fuel) seed (b ∷ bs) =
    let n = if (b == 0x00) || (b == 0x03) then name_span bs else 0 in
    find_seed fuel (seed_in (take n bs) seed) (drop n bs)

unfoldable pub read_seed : Bytes → Bytes → Bytes
read_seed [] seed = seed
read_seed (b ∷ bs) seed = if b == 0x01 then find_seed (length bs) [] bs else seed

unfoldable pub handle_subnegotiation : World → ℕ → Bytes → Handler → Handler
handle_subnegotiation w opt bytes h =
    if opt == terminal_type
    then send_device_name h
    else if opt == new_environ
    then send_new_environ w (record h { server_seed = read_seed bytes h.server_seed })
    else h

-- BINARY and END-OF-RECORD, once agreed on.
abbrev pub agree_binary : Handler → Handler
agree_binary h = check_handshake_complete (record h { binary_negotiated = true })

abbrev pub agree_eor : Handler → Handler
agree_eor h = check_handshake_complete (record h { eor_negotiated = true })

unfoldable pub handle_will : ℕ → Handler → Handler
handle_will opt h =
    if opt == transmit_binary
    then agree_binary (send_telnet_command do_command transmit_binary h)
    else if opt == end_of_record
    then agree_eor (send_telnet_command do_command end_of_record h)
    else if opt == echo
    then send_telnet_command do_command echo h
    else if opt == suppress_go_ahead
    then send_telnet_command do_command suppress_go_ahead h
    else send_telnet_command dont opt h

unfoldable pub handle_do : ℕ → Handler → Handler
handle_do opt h =
    if opt == timing_mark
    then send_telnet_command wont timing_mark h
    else if opt == transmit_binary
    then agree_binary (send_telnet_command will transmit_binary h)
    else if opt == end_of_record
    then agree_eor (send_telnet_command will end_of_record h)
    else if opt == terminal_type
    then send_telnet_command will terminal_type h
    else if opt == new_environ
    then send_telnet_command will new_environ h
    else send_telnet_command wont opt h

unfoldable pub handle_telnet_command : ℕ → ℕ → Handler → Handler
handle_telnet_command cmd opt h =
    if cmd == will
    then handle_will opt h
    else if cmd == wont
    then h
    else if cmd == do_command
    then handle_do opt h
    else if cmd == dont
    then h
    else if cmd == sb
    then record h {
      in_subnegotiation = true;
      current_subnegotiation = opt;
      subnegotiation_buffer = [];
    }
    else h
