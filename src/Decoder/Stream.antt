-- ===== src/Decoder/Stream.antt =====
-- tn5250/client/decoder.cpp: Decoder::parseData and Decoder::reset. The GDS records are cut out of
-- the buffered stream, and each is taken apart.
pub mod Framing
pub mod Chunks
pub mod Records
use protocol_tn.Base.{
  ℕ, zero, suc, ◌+◌, Bool, not, ◌&&◌, ◌||◌, List, [], ◌∷◌, ◌++◌, Bytes, be16, length, take, drop,
  get_or, ltb, ◌==◌, if◌then◌else◌,
}
use protocol_tn.Protocol.{
  gds_opcode_invite, gds_opcode_output_only, gds_opcode_put_get, gds_opcode_save_screen,
  gds_opcode_restore, gds_opcode_read_screen, gds_opcode_cancel_invite, gds_opcode_msg_light_on,
  gds_opcode_msg_light_off, gds_min_record_len, gds_max_record_len, gds_record_type_hi,
  gds_record_type_lo,
}
use protocol_tn.Decoder.Event.{
  record_too_short, incomplete_variable_header, variable_header_too_short, Event,
  on_raw_screen_data, on_save_screen, on_invite, on_cancel_invite, on_message_light_on,
  on_message_light_off, on_parse_error,
}
use protocol_tn.Decoder.Payload.{payload_loop}

pub data ParserState : Type 0 where
  waiting_for_command : ParserState
  reading_length : ParserState
  reading_data : ParserState
  complete : ParserState

-- `calls` is the trace of the callbacks made since the decoder was built.
pub record Decoder : Type 0 where
  pub state : ParserState
  pub buffer : Bytes
  pub calls : List Event

abbrev pub new : Decoder
new = record { state = waiting_for_command; buffer = []; calls = [] }

-- The opcodes whose payload is read.
unfoldable pub carries_payload : ℕ → Bool
carries_payload op =
    (op == gds_opcode_output_only)
    || (op == gds_opcode_put_get)
    || (op == gds_opcode_restore)
    || (op == gds_opcode_save_screen)
    || (op == gds_opcode_read_screen)

-- The display is handed over even when it is empty.
unfoldable pub payload_events : Bytes → List Event
payload_events payload =
    let out = payload_loop (length payload) payload in
    out.events ++ (on_raw_screen_data out.display ∷ [])

unfoldable pub opcode_events : ℕ → Bytes → List Event
opcode_events op payload =
    (if op == gds_opcode_save_screen then on_save_screen ∷ [] else [])
    ++ (if op == gds_opcode_invite
        then on_invite ∷ []
        else if op == gds_opcode_cancel_invite
        then on_cancel_invite ∷ []
        else if op == gds_opcode_msg_light_on
        then on_message_light_on ∷ []
        else if op == gds_opcode_msg_light_off
        then on_message_light_off ∷ []
        else if carries_payload op
        then payload_events payload
        else [])

-- One record, cut out whole.
unfoldable pub record_events : Bytes → List Event
record_events rec =
    let var_len = get_or rec 6 0 in
    if ltb (length rec) 7
    then on_parse_error record_too_short ∷ []
    else if not ((get_or rec 2 0 == gds_record_type_hi) && (get_or rec 3 0 == gds_record_type_lo))
    then on_raw_screen_data rec ∷ []
    else if ltb (length rec) (6 + 1 + var_len)
    then on_parse_error incomplete_variable_header ∷ []
    else if ltb var_len 4
    then on_parse_error variable_header_too_short ∷ []
    else opcode_events (get_or rec 9 0) (drop (6 + var_len) rec)

-- What the loop does with the buffer.
pub data Frame : Type 0 where
  wait : Frame
  skip : Bytes → Frame
  whole : Bytes → Bytes → Frame

unfoldable pub frame : Bytes → Frame
frame buf =
    let rec_len = be16 (get_or buf 0 0) (get_or buf 1 0) in
    if ltb (length buf) gds_min_record_len
    then wait
    else if ltb rec_len gds_min_record_len || ltb gds_max_record_len rec_len
    then skip (drop 1 buf)
    else if ltb (length buf) rec_len
    then wait
    else whole (take rec_len buf) (drop rec_len buf)

-- The loop: the callbacks made, and the buffer left. Fuel: each round takes a byte at least.
unfoldable pub parse_loop : ℕ → Bytes → List Event × Bytes
parse_loop zero buf = ([], buf)
parse_loop (suc fuel) buf = elim (frame buf) [
  | wait ↦ ([], buf)
  | skip rest ↦ parse_loop fuel rest
  | whole rec rest ↦ let later = parse_loop fuel rest in (record_events rec ++ later.0, later.1)
]

unfoldable pub parse_data : Decoder → Bytes → Decoder
parse_data d input =
    let buf = d.buffer ++ input in
    let done = parse_loop (length buf) buf in
    record d { buffer = done.1; calls = d.calls ++ done.0 }

unfoldable pub reset : Decoder → Decoder
reset d = record d { state = waiting_for_command }
