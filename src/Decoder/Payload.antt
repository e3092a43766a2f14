-- ===== src/Decoder/Payload.antt =====
-- tn5250/client/decoder.cpp, the loop over the payload of one record. A position i is the list of
-- the bytes from i on.
pub mod Ends
use protocol_tn.Base.{
  ℕ, zero, suc, ◌+◌, ◌/◌, ◌%◌, ◌||◌, List, [], ◌∷◌, ◌++◌, Bytes, be16, length, take, drop, get_or,
  ltb, leb, ◌==◌, if◌then◌else◌,
}
use protocol_tn.Protocol.{
  esc, soh, cc_clear_unit, cc_clear_unit_alternate, cc_write_to_display, cc_write_error_code,
  cc_roll, cc_read_input_fields, cc_clear_format_table, cc_read_mdt_fields, cc_read_immediate,
  cc_write_error_code_to_window, cc_write_structured_field, cc_read_screen, cc_read_screen_alt,
}
use protocol_tn.Decoder.Event.{
  read_mdt_fields, read_input_fields, read_immediate, wsf_length_out_of_range, unknown_esc_command,
  stray_byte, Event, on_command_received, on_clear_screen, on_clear_screen_alternate,
  on_keyboard_unlock, on_control_characters, on_roll, on_write_error_code, on_clear_format_table,
  on_read_screen, on_write_structured_field, on_parse_error, Output, silent, calls, ◌then_also◌,
}
use protocol_tn.Decoder.Orders.{soh_events, orders}

-- A round of the loop breaks, or goes on at a later position.
pub data Round : Type 0 where
  halt : Output → Round
  next : Output → Bytes → Round

abbrev pub call : Event → Bytes → Round
call e bs = next (calls (e ∷ [])) bs

-- The bytes in front of the next ESC, counted.
unfoldable pub esc_span : Bytes → ℕ
esc_span [] = 0
esc_span (b ∷ bs) = if b == esc then 0 else suc (esc_span bs)

unfoldable pub write_error_code : Bytes → Round
write_error_code bs = call (on_write_error_code (take (esc_span bs) bs)) (drop (esc_span bs) bs)

-- `bs` begins behind the command code. A row byte r is uint8_t(r - 1).
unfoldable pub roll : Bytes → Round
roll bs =
    if ltb 1 (length bs)
    then (let up = get_or bs 0 0 / 128 % 2 == 1 in
        let lines = get_or bs 1 0 % 32 in
        if ltb 3 (length bs)
        then call (on_roll ((get_or bs 2 0 + 255) % 256) ((get_or bs 3 0 + 255) % 256) lines up)
            (drop 4 bs)
        else call (on_roll 0 0 lines up) (drop 2 bs))
    else next silent (drop 2 bs)

-- The walk over the structured fields: the errors reported, and j - wsfStart at its end.
unfoldable pub wsf_walk : ℕ → Bytes → List Event × ℕ
wsf_walk zero bs = ([], 0)
wsf_walk (suc fuel) bs =
    let len = be16 (get_or bs 0 0) (get_or bs 1 0) in
    let later = wsf_walk fuel (drop len bs) in
    if leb (length bs) 1 || get_or bs 0 0 == esc
    then ([], 0)
    else if ltb len 2 || ltb (length bs) len
    then (on_parse_error wsf_length_out_of_range ∷ [], length bs)
    else (later.0, len + later.1)

unfoldable pub wsf_command : Bytes → Round
wsf_command bs =
    let walk = wsf_walk (length bs) bs in
    next (calls (walk.0 ++ (on_write_structured_field (take walk.1 bs) ∷ []))) (drop walk.1 bs)

unfoldable pub write_to_display : Bytes → Round
write_to_display bs =
    if leb (length bs) 1
    then halt silent
    else (let ctrl2 = get_or bs 1 0 in
        let unlock = if ctrl2 / 8 % 2 == 1 then on_keyboard_unlock ∷ [] else [] in
        let shown = orders (length (drop 2 bs)) (drop 2 bs) in
        next (calls (on_control_characters (get_or bs 0 0) ctrl2 ∷ unlock) then_also shown.0)
          shown.1)

unfoldable pub unknown_command : ℕ → Bytes → Round
unknown_command cc bs = call (on_parse_error (unknown_esc_command cc)) (drop (esc_span bs) bs)

-- The command `cc` behind an ESC; `bs` begins behind it.
unfoldable pub escape_command : ℕ → Bytes → Round
escape_command cc bs =
    if cc == cc_clear_unit
    then call on_clear_screen bs
    else if cc == cc_clear_unit_alternate
    then call on_clear_screen_alternate bs
    else if cc == cc_write_error_code
    then write_error_code bs
    else if cc == cc_roll
    then roll bs
    else if cc == cc_write_error_code_to_window
    then write_error_code bs
    else if cc == cc_read_input_fields
    then call (on_command_received read_input_fields []) (drop 2 bs)
    else if cc == cc_clear_format_table
    then call on_clear_format_table bs
    else if cc == cc_read_mdt_fields
    then call (on_command_received read_mdt_fields []) (drop 2 bs)
    else if cc == cc_read_immediate
    then call (on_command_received read_immediate []) (drop 2 bs)
    else if (cc == cc_read_screen) || (cc == cc_read_screen_alt)
    then call (on_read_screen (cc == cc_read_screen_alt)) (drop 2 bs)
    else if cc == cc_write_structured_field
    then wsf_command bs
    else if cc == cc_write_to_display
    then write_to_display bs
    else unknown_command cc bs

unfoldable pub soh_round : Bytes → Round
soh_round bs =
    if leb (length bs) 1
    then halt silent
    else next (calls (soh_events (get_or bs 1 0) bs)) (drop (2 + get_or bs 1 0) bs)

unfoldable pub escape_round : Bytes → Round
escape_round [] = halt silent
escape_round (cc ∷ bs) = escape_command cc bs

unfoldable pub payload_round : ℕ → Bytes → Round
payload_round ch rest =
    if ch == esc
    then escape_round rest
    else if ch == soh
    then soh_round (ch ∷ rest)
    else call (on_parse_error (stray_byte ch)) rest

-- The rest of the loop behind a round.
abbrev pub go_on : Round → (Bytes → Output) → Output
go_on (halt out) later = out
go_on (next out bs) later = out then_also later bs

-- The loop. Fuel: each round takes a byte at least.
unfoldable pub payload_loop : ℕ → Bytes → Output
payload_loop zero bs = silent
payload_loop (suc fuel) [] = silent
payload_loop (suc fuel) (ch ∷ rest) = go_on (payload_round ch rest) (payload_loop fuel)
