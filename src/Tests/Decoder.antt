-- ===== src/Tests/Decoder.antt =====
-- Runs of the decoder, most of them from tests/test_decoder.cpp.
use protocol_tn.Base.{
  ◌≤◌, ◌<◌, false, List, [], ◌∷◌, Bytes, length, take, drop, ◌≡◌, refl, inl, inr, arith,
}
use protocol_tn.Protocol.{esc, order_sba}
use protocol_tn.Decoder.Orders.{orders}
use protocol_tn.Decoder.Orders.Ends.{AtEsc, orders-AtEsc}
use protocol_tn.Decoder.Payload.{payload_loop}
use protocol_tn.Decoder.Payload.Ends.{payload_loop_fuel}
use protocol_tn.Decoder.Stream.{new, carries_payload, wait, frame, parse_data}
use protocol_tn.Decoder.Stream.Chunks.{parse_data-append}
use protocol_tn.Decoder.Stream.Records.{IsRecord, parse_reads, parse_data_waits}
use protocol_tn.Decoder.Grammar.{
  DisplayOrder, text, address, header, transparent, structured, program_call, start_field, IsText,
  EndsCommand, AreOrders, orders_bytes, orders_meaning,
}
use protocol_tn.Decoder.Grammar.Orders.{orders_grammar}
use protocol_tn.Decoder.Grammar.Commands.{
  HostCommand, clear_unit, display, error_code, structured_fields, AreCommands, commands_bytes,
  commands_meaning,
}
use protocol_tn.Decoder.Grammar.Payload.{payload_loop_grammar}
use protocol_tn.Decoder.Grammar.Stream.{
  HostRecord, IsHostRecord, host_bytes, all_meanings, parse_reads_host,
}

plain-IsText : IsText 0xC1
plain-IsText = record {
  no_esc = omega arith;
  no_soh = omega arith;
  no_sba = omega arith;
  no_ic = omega arith;
  no_mc = omega arith;
  no_ra = omega arith;
  no_ea = omega arith;
  no_td = omega arith;
  no_wdsf = omega arith;
  no_sf = omega arith;
  no_trigger = omega arith;
}

-- A header, an address, a text, transparent data, a structured field, a program call and a field.
abbrev screen : List DisplayOrder
screen =
    header (0x00 ∷ 0x00 ∷ 0x00 ∷ 0x18 ∷ [])
    ∷ address order_sba 1 2
    ∷ text 0xC1
    ∷ transparent (esc ∷ 0x00 ∷ [])
    ∷ structured 0x00 0x03 (esc ∷ [])
    ∷ start_field 0x40 0x00 ((0x80, 0x01) ∷ []) 0x20 0x00 0x0A
    ∷ program_call 0x81 (0xC4 ∷ 0xC9 ∷ [])
    ∷ []

screen-AreOrders : (rest : Bytes) → EndsCommand (0xC4 ∷ 0xC9 ∷ []) rest → AreOrders screen rest
screen-AreOrders rest h = (
  tt,
  (
    inl refl,
    (
      plain-IsText,
      (
        tt,
        (
          refl,
          (
            ((omega arith, tt), refl),
            ((omega arith, omega arith, (omega arith, (omega arith, tt)), h), tt),
          ),
        ),
      ),
    ),
  ),
)

orders_grammar_example :
    orders 60 (orders_bytes screen (esc ∷ 0x40 ∷ [])) ≡ (orders_meaning screen, esc ∷ 0x40 ∷ [])
orders_grammar_example =
    orders_grammar 60 screen (esc ∷ 0x40 ∷ [])
      (screen-AreOrders (esc ∷ 0x40 ∷ []) (inr (omega arith))) refl (omega arith)

-- The screen, an error message, and a structured field whose data holds the ESC byte.
abbrev commands : List HostCommand
commands =
    clear_unit
    ∷ display 0x00 0x08 screen
    ∷ error_code false (0xC5 ∷ 0xD9 ∷ [])
    ∷ structured_fields ((0x00, 0x05, 0xD9 ∷ esc ∷ 0x70 ∷ []) ∷ [])
    ∷ []

commands-AreCommands : AreCommands commands
commands-AreCommands = (
  tt,
  (
    (screen-AreOrders (commands_bytes (drop 2 commands)) (inr (omega arith)), refl),
    (((omega arith, (omega arith, tt)), refl), ((((omega arith, refl), tt), tt), tt)),
  ),
)

payload_loop_grammar_example : payload_loop 90 (commands_bytes commands) ≡ commands_meaning commands
payload_loop_grammar_example = payload_loop_grammar 90 commands commands-AreCommands (omega arith)

abbrev host_record : HostRecord
host_record = record {
  reserved1 = 0;
  reserved2 = 0;
  flags1 = 0;
  flags2 = 0;
  opcode = 0x04;
  first = clear_unit;
  more = drop 1 commands;
}

host_record-IsHostRecord : IsHostRecord host_record
host_record-IsHostRecord = record {
  fits = omega arith;
  read = unfold carries_payload in refl;
  formed = commands-AreCommands;
}

parse_reads_host_example :
    parse_reads new (take 9 (host_bytes host_record) ∷ drop 9 (host_bytes host_record) ∷ [])
    ≡ record new { calls = all_meanings (host_record ∷ []) }
parse_reads_host_example =
    parse_reads_host new (host_record ∷ []) (take 9 (host_bytes host_record))
      (drop 9 (host_bytes host_record) ∷ []) refl (host_record-IsHostRecord, tt) refl

parse_data-append_example :
    parse_data (parse_data new (0x00 ∷ 0x0A ∷ [])) (0x12 ∷ 0xA0 ∷ 0x00 ∷ [])
    ≡ parse_data new (0x00 ∷ 0x0A ∷ 0x12 ∷ 0xA0 ∷ 0x00 ∷ [])
parse_data-append_example = parse_data-append new (0x00 ∷ 0x0A ∷ []) (0x12 ∷ 0xA0 ∷ 0x00 ∷ [])

-- The invitation of the handler's tests, whose variable header ends the record.
abbrev invite : Bytes
invite = 0x00 ∷ 0x0A ∷ 0x12 ∷ 0xA0 ∷ 0x00 ∷ 0x00 ∷ 0x04 ∷ 0x00 ∷ 0x00 ∷ 0x01 ∷ []

invite-IsRecord : IsRecord invite
invite-IsRecord = record { long_enough = omega arith; short_enough = omega arith; announces = refl }

parse_data_waits_example :
    (frame (parse_data new (0x00 ∷ 0x00 ∷ invite)).buffer ≡ wait)
    × (length (parse_data new (0x00 ∷ 0x00 ∷ invite)).buffer < 65535)
parse_data_waits_example = parse_data_waits new (0x00 ∷ 0x00 ∷ invite)

payload_loop_fuel_example :
    payload_loop 4 (esc ∷ 0x40 ∷ 0x33 ∷ []) ≡ payload_loop 9 (esc ∷ 0x40 ∷ 0x33 ∷ [])
payload_loop_fuel_example =
    payload_loop_fuel 4 9 (esc ∷ 0x40 ∷ 0x33 ∷ []) (omega arith) (omega arith)

orders-AtEsc_example :
    AtEsc (orders 6 (0x1D ∷ 0x40 ∷ 0x00 ∷ 0x20 ∷ esc ∷ [])).1
    × (length (orders 6 (0x1D ∷ 0x40 ∷ 0x00 ∷ 0x20 ∷ esc ∷ [])).1
        ≤ length (0x1D ∷ 0x40 ∷ 0x00 ∷ 0x20 ∷ esc ∷ []))
orders-AtEsc_example = orders-AtEsc 6 (0x1D ∷ 0x40 ∷ 0x00 ∷ 0x20 ∷ esc ∷ []) (omega arith)
