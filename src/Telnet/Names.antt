-- ===== src/Telnet/Names.antt =====
-- tn5250/telnet/commands.cpp and options.cpp: the names of Telnet commands and options.
use protocol_tn.Base.{ℕ, Bool, List, [], ◌∷◌, Bytes, ◌==◌}
use Prim.Native.String.{String}
use protocol_tn.Utils.Text.Lines.{named, unknown_upper}
use protocol_tn.Telnet.Command.{
  eor, se, nop, dm, brk, ip, ao, ayt, ec, el, ga, sb, will, wont, do_command, dont, iac,
  transmit_binary, echo, suppress_go_ahead, terminal_type, end_of_record,
  negotiate_about_window_size, terminal_speed, new_environ, tn3270e, telnet_start_tls,
}

abbrev pub command_names : List (ℕ × String)
command_names =
    (eor, "EOR")
    ∷ (se, "SE")
    ∷ (nop, "NOP")
    ∷ (dm, "DM")
    ∷ (brk, "BRK")
    ∷ (ip, "IP")
    ∷ (ao, "AO")
    ∷ (ayt, "AYT")
    ∷ (ec, "EC")
    ∷ (el, "EL")
    ∷ (ga, "GA")
    ∷ (sb, "SB")
    ∷ (will, "WILL")
    ∷ (wont, "WONT")
    ∷ (do_command, "DO")
    ∷ (dont, "DONT")
    ∷ (iac, "IAC")
    ∷ []

unfoldable pub telnet_command_to_string : ℕ → Bytes
telnet_command_to_string cmd = named command_names (unknown_upper cmd) cmd

abbrev pub option_names : List (ℕ × String)
option_names =
    (transmit_binary, "BINARY")
    ∷ (echo, "ECHO")
    ∷ (suppress_go_ahead, "SUPPRESS_GO_AHEAD")
    ∷ (terminal_type, "TERMINAL_TYPE")
    ∷ (end_of_record, "EOR")
    ∷ (negotiate_about_window_size, "NAWS")
    ∷ (terminal_speed, "TERMINAL_SPEED")
    ∷ (new_environ, "NEW_ENVIRON")
    ∷ (tn3270e, "TN3270E")
    ∷ (telnet_start_tls, "START_TLS")
    ∷ []

unfoldable pub telnet_option_to_string : ℕ → Bytes
telnet_option_to_string opt = named option_names (unknown_upper opt) opt

abbrev pub is_iac : ℕ → Bool
is_iac byte = byte == iac
