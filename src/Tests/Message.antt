-- ===== src/Tests/Message.antt =====
-- Runs of tn5250/message, tn5250/devices and tn5250/utils, and the theorems at them.
use protocol_tn.Base.{
  IsBytes, List, [], ◌∷◌, Bytes, All, length, take, ◌≡◌, refl, arith, append-nil,
}
use protocol_tn.Session.{wire, deliver, process_reads}
use protocol_tn.Decoder.Stream.{new as new_decoder, record_events, opcode_events, carries_payload}
use protocol_tn.Decoder.Grammar.{IsText}
use protocol_tn.Message.Result.{ok, err, unset}
use protocol_tn.Message.Order.{
  Order, soh, ra, sba, sf, ic, unmarshal_orders, unmarshal_order, marshal_order,
  unmarshal_orders_loop, skip_to_order, read_round, marshal_orders,
}
use protocol_tn.Message.Order.InsertCursor
use protocol_tn.Message.Order.RepeatToAddress
use protocol_tn.Message.Order.SetBufferAddress
use protocol_tn.Message.Order.StartField
use protocol_tn.Message.Order.StartOfHeader
use protocol_tn.Message.Order.Reads.{IsOrder}
use protocol_tn.Message.Order.Exact.{marshal_order-unmarshal_order}
use protocol_tn.Message.Order.Sequence.{unmarshal_orders-marshal_orders}
use protocol_tn.Message.Command.{Command, cs, wtd, unmarshal_command, default_command}
use protocol_tn.Message.Command.WriteToDisplay
use protocol_tn.Message.Record.{Message, new, unmarshal, marshal}
use protocol_tn.Message.Record.Loop.{command_bytes, Reports}
use protocol_tn.Message.Record.RoundTrip.{
  IsMessage, record_bytes, with_all_of, marshal-fits, unmarshal-marshal,
}
use protocol_tn.Message.Record.Errors.{cut_error, unmarshal-take, unmarshal-Reports}
use protocol_tn.Message.Typed.Orders.{OnOk}
use protocol_tn.Message.Typed.Records.{MessageFits, unmarshal-marshal-MessageFits}
use protocol_tn.Message.OnWire.{record_events-marshal}
use protocol_tn.Message.Session.{IsHostMessage, all_records, all_meanings, IsKept, session_messages}
use protocol_tn.Decoder.Stream.Records.{parse_reads}
use protocol_tn.Message.Agreement.{message_meaning, record_events-message}
use protocol_tn.Devices.{
  find_supported_device, supported_devices, Answers, find_supported_device-Answers,
}
use protocol_tn.Tests.Handler.{world, greeted, greeted-IsAtStart}

letter-IsText : IsText 0xC1
letter-IsText = record {
  no_esc = omega arith;
  no_soh = omega arith;
  no_sba = omega arith;
  no_ic = omega arith;
  no_mc = omega arith;
  no_ra = omega arith;
  no_ea = omega arith;
  no_td = omega arith;
  no_wdsf = omega arith;
  no_sf = omega arith;
  no_trigger = omega arith;
}

-- A header, a repeat, an address with a letter, and a field with a control word and a letter.
abbrev header_order : StartOfHeader.StartOfHeader
header_order = record {
  code = 0x01;
  header_length = 7;
  flags = 0;
  flags_reserved = 0;
  resequence_to_field = 0;
  error_row = 24;
  command_key_switch1 = 0;
  command_key_switch2 = 0;
  command_key_switch3 = 1;
}

abbrev repeat_order : RepeatToAddress.RepeatToAddress
repeat_order = record {
  code = 0x02;
  row_address = 2;
  column_address = 80;
  repeated_character = 0x40 ∷ [];
}

abbrev address_order : SetBufferAddress.SetBufferAddress
address_order = record {
  code = 0x11;
  row_address = 6;
  column_address = 53;
  repeated_character = 0xC1 ∷ [];
}

abbrev field_order : StartField.StartField
field_order = record {
  code = 0x1D;
  format_word1 = 0x40;
  format_word2 = 0x20;
  control_words = 0x8101 ∷ [];
  attributes = 0x24;
  field_length = 1;
  repeated_character = 0xC1 ∷ [];
}

abbrev some_orders : List Order
some_orders = soh header_order ∷ ra repeat_order ∷ sba address_order ∷ sf field_order ∷ []

some_orders-IsOrder : All IsOrder some_orders
some_orders-IsOrder = (
  refl,
  (
    (refl, refl),
    (
      (refl, (refl, tt)),
      (
        (
          refl,
          (record { fits = omega arith; no_attribute = omega arith }, tt),
          refl,
          refl,
          omega arith,
        ),
        tt,
      ),
    ),
  ),
)

abbrev cursor_order : InsertCursor.InsertCursor
cursor_order = record { code = 0x03; row_address = 6; column_address = 53 }

unmarshal_orders-marshal_orders_example :
    unmarshal_orders (marshal_orders (ic cursor_order ∷ some_orders))
    ≡ ok (ic cursor_order ∷ some_orders)
unmarshal_orders-marshal_orders_example =
    unmarshal_orders-marshal_orders (ic cursor_order ∷ some_orders) (refl, some_orders-IsOrder)

address_read : unmarshal_order (0x11 ∷ 6 ∷ 53 ∷ 0xC1 ∷ 0x03 ∷ []) ≡ ok (sba address_order, 4)
unfolding unmarshal_order SetBufferAddress.unmarshal SetBufferAddress.display_data
address_read = refl

marshal_order-unmarshal_order_example :
    marshal_order (sba address_order) ≡ take 4 (0x11 ∷ 6 ∷ 53 ∷ 0xC1 ∷ 0x03 ∷ [])
marshal_order-unmarshal_order_example =
    marshal_order-unmarshal_order (0x11 ∷ 6 ∷ 53 ∷ 0xC1 ∷ 0x03 ∷ []) (sba address_order) 4
      (omega arith, (omega arith, (omega arith, (omega arith, (omega arith, tt))))) address_read tt

abbrev clear_command : Command
clear_command = cs (record { code = 0x40; orders = [] })

abbrev display_command : Command
display_command = wtd (record { code = 0x11; orders = some_orders; control1 = 0; control2 = 8 })

-- Put/Get, with a variable header of one byte more than the fields take.
abbrev pub put_get : Message
put_get = record {
  header = record { record_length = 43; record_type = 0x12A0; fixed_reserved = 0 };
  variable_length = 5;
  sna_flags = 0;
  variable_reserved = 0;
  opcode = 3;
  commands = clear_command ∷ display_command ∷ [];
}

put_get-IsMessage : IsMessage put_get
unfolding WriteToDisplay.marshal StartOfHeader.marshal RepeatToAddress.marshal
    SetBufferAddress.marshal StartField.marshal
put_get-IsMessage = record {
  type_fits = omega arith;
  reserved_fits = omega arith;
  has_fields = omega arith;
  length_is_size = refl;
  size_fits = omega arith;
  are_commands = ((refl, refl), tt, ((refl, some_orders-IsOrder), refl, tt));
}

unmarshal-marshal_example :
    (bs : Bytes) × (marshal put_get ≡ ok bs)
    × (unmarshal bs new ≡ (with_all_of put_get new, ok (length bs)))
unmarshal-marshal_example = unmarshal-marshal put_get new put_get-IsMessage

put_get_bytes : marshal put_get ≡ ok (record_bytes put_get)
put_get_bytes = marshal-fits put_get put_get-IsMessage

-- Cut off in the variable header.
unmarshal-take_example :
    (bs : Bytes) × (marshal put_get ≡ ok bs) × ((unmarshal (take 9 bs) new).1 ≡ cut_error 9)
unmarshal-take_example = unmarshal-take put_get new 9 put_get-IsMessage (omega arith)

unmarshal-Reports_example :
    Reports (length (record_bytes put_get)) (unmarshal (record_bytes put_get) new)
unmarshal-Reports_example = unmarshal-Reports (record_bytes put_get) new

put_get-IsHostMessage : IsHostMessage put_get
unfolding carries_payload
put_get-IsHostMessage = record {
  formed = put_get-IsMessage;
  stream = refl;
  filled = refl;
  read = refl;
  shared = (tt, ((refl, (tt, ((letter-IsText, tt), ((letter-IsText, tt), tt)))), tt));
}

-- The record twice, in one read.
session_messages_example :
    (process_reads world greeted (wire (all_records (put_get ∷ put_get ∷ [])) ∷ [])
      ≡ deliver (all_records (put_get ∷ put_get ∷ [])) greeted)
    × (parse_reads new_decoder (all_records (put_get ∷ put_get ∷ []))
        ≡ record new_decoder { calls = all_meanings (put_get ∷ put_get ∷ []) })
    × All IsKept (put_get ∷ put_get ∷ [])
session_messages_example =
    session_messages world greeted new_decoder put_get (put_get ∷ [])
      (wire (all_records (put_get ∷ put_get ∷ []))) [] greeted-IsAtStart refl
      (put_get-IsHostMessage, (put_get-IsHostMessage, tt))
      (append-nil (wire (all_records (put_get ∷ put_get ∷ []))))

record_events-marshal_example :
    record_events (record_bytes put_get) ≡ opcode_events 3 (command_bytes put_get.commands)
record_events-marshal_example =
    record_events-marshal put_get (record_bytes put_get) put_get-IsMessage refl put_get_bytes

record_events-message_example : record_events (record_bytes put_get) ≡ message_meaning put_get
unfolding carries_payload
record_events-message_example =
    record_events-message put_get (record_bytes put_get) put_get-IsMessage refl refl refl
      (tt, ((refl, (tt, ((letter-IsText, tt), ((letter-IsText, tt), tt)))), tt)) put_get_bytes

-- "ibm-3180-2", in small letters.
abbrev small_model : Bytes
small_model = b'i' ∷ b'b' ∷ b'm' ∷ b'-' ∷ b'3' ∷ b'1' ∷ b'8' ∷ b'0' ∷ b'-' ∷ b'2' ∷ []

find_supported_device-Answers_example :
    Answers small_model supported_devices (find_supported_device small_model)
find_supported_device-Answers_example = find_supported_device-Answers small_model

-- Text without an order is refused without an error, and an unknown command is taken for a Clear
-- Unit and takes the commands behind it.
text_display : unmarshal_command (0x04 ∷ 0x11 ∷ 0 ∷ 0 ∷ 0xC1 ∷ []) ≡ err unset
unfolding unmarshal_command WriteToDisplay.unmarshal unmarshal_orders unmarshal_orders_loop
    skip_to_order read_round
text_display = refl

unknown_command : unmarshal_command (0x04 ∷ 0x50 ∷ 0x04 ∷ 0x40 ∷ []) ≡ ok (default_command, 4)
unfolding unmarshal_command
unknown_command = refl

put_get_fits : MessageFits put_get
put_get_fits = record {
  record_length = omega arith;
  record_type = omega arith;
  fixed_reserved = omega arith;
  variable = omega arith;
  commands = omega arith;
}

unmarshal-marshal-MessageFits_example :
    MessageFits (unmarshal (0x00 ∷ 0x0A ∷ 0x12 ∷ []) put_get).0 × OnOk IsBytes (marshal put_get)
unmarshal-marshal-MessageFits_example =
    unmarshal-marshal-MessageFits (0x00 ∷ 0x0A ∷ 0x12 ∷ []) put_get
      (omega arith, (omega arith, (omega arith, tt))) put_get_fits
