-- ===== src/Message/Describe/Names.antt =====
-- The descriptions of the codes of tn5250/message: OperationCode, RecordType, CommandCode and OrderCode.
use protocol_tn.Base.{ℕ, List, [], ◌∷◌, ◌++◌, Bytes}
use Prim.Native.String.{String}
use protocol_tn.Utils.Hex.{to_hex_string_padded_2, to_hex_string_padded_4, zero_filled}
use protocol_tn.Utils.Text.Lines.{codes, named}
use protocol_tn.Message.Header.{general_data_stream}
use protocol_tn.Message.OperationCode.{
  opcode_nop, opcode_invite, opcode_output_only, opcode_put_get, opcode_save_screen,
  opcode_restore_screen, opcode_read_immediate, opcode_read_screen, opcode_cancel_invite,
  opcode_message_light_on, opcode_message_light_off,
}
use protocol_tn.Message.Command.Code.{
  write_to_display, erase_write, erase_write_alternate, read_modify, clear_unit,
  clear_unit_alternate, write_error_code, roll, read_input_fields, clear_format_table,
  read_mdt_fields, read_modify_write, read_immediate,
}
use protocol_tn.Message.Order.Code.{
  start_of_header, repeat_to_address, insert_cursor, set_buffer_address, start_field,
}

-- "Unknown (0x", digits and ")".
abbrev pub unknown : Bytes → Bytes
unknown digits = codes "Unknown (0x" ++ (digits ++ codes ")")

abbrev pub opcode_names : List (ℕ × String)
opcode_names =
    (opcode_nop, "NOP")
    ∷ (opcode_invite, "Invite")
    ∷ (opcode_output_only, "Output Only")
    ∷ (opcode_put_get, "Put/Get")
    ∷ (opcode_save_screen, "Save Screen")
    ∷ (opcode_restore_screen, "Restore Screen")
    ∷ (opcode_read_immediate, "Read Immediate")
    ∷ (opcode_read_screen, "Read Screen")
    ∷ (opcode_cancel_invite, "Cancel Invite")
    ∷ (opcode_message_light_on, "Turn On Message Light")
    ∷ (opcode_message_light_off, "Turn Off Message Light")
    ∷ []

unfoldable pub opcode_description : ℕ → Bytes
opcode_description value = named opcode_names (unknown (to_hex_string_padded_2 value)) value

abbrev pub record_type_names : List (ℕ × String)
record_type_names = (general_data_stream, "General Data Stream") ∷ []

unfoldable pub record_type_description : ℕ → Bytes
record_type_description value =
    named record_type_names (unknown (to_hex_string_padded_4 value)) value

abbrev pub command_names : List (ℕ × String)
command_names =
    (write_to_display, "Write To Display")
    ∷ (erase_write, "Erase Write")
    ∷ (erase_write_alternate, "Erase Write Alternate")
    ∷ (read_modify, "Read Modify")
    ∷ (clear_unit, "Clear Unit")
    ∷ (clear_unit_alternate, "Clear Unit Alternate")
    ∷ (write_error_code, "Write Error Code")
    ∷ (roll, "Roll")
    ∷ (read_input_fields, "Read Input Fields")
    ∷ (clear_format_table, "Clear Format Table")
    ∷ (read_mdt_fields, "Read MDT Fields")
    ∷ (read_modify_write, "Read Modify Write")
    ∷ (read_immediate, "Read Immediate")
    ∷ []

-- A stream writes the uint8_t as the character it is, filled to a width of two.
unfoldable pub command_description : ℕ → Bytes
command_description value = named command_names (unknown (zero_filled 2 (value ∷ []))) value

abbrev pub order_names : List (ℕ × String)
order_names =
    (start_of_header, "Start Of Header")
    ∷ (repeat_to_address, "Repeat To Address")
    ∷ (insert_cursor, "Insert Cursor")
    ∷ (set_buffer_address, "Set Buffer Address")
    ∷ (start_field, "Start Field")
    ∷ []

unfoldable pub order_description : ℕ → Bytes
order_description value = named order_names (unknown (zero_filled 2 (value ∷ []))) value
