-- ===== src/Message/Describe.antt =====
-- The describe methods of tn5250/message, and the descriptions of its codes: text for people, on a
-- stream with the default flags.
pub mod Names
pub mod Nesting
use protocol_tn.Base.{
  ℕ, zero, suc, ◌+◌, ◌-◌, ◌*◌, ◌/◌, ◌%◌, ◌^◌, ◌≤◌, ◌<◌, min, Bool, true, false, not, ◌&&◌, ◌||◌,
  Option, none, some, List, [], ◌∷◌, ◌++◌, map, Bytes, IsByte, IsBytes, All, All-drop, be16,
  is_empty, length, take, drop, get_or, set, replicate, ltb, leb, ◌==◌, if◌then◌else◌, ◌≡◌, refl,
  sym, ap, ap₂, ◌∙◌, ◌≢◌, inl, inr, ◌⊎◌, arith, Bool-cases, ==_iff, length-append, length-take,
  length-drop, length-replicate, take_append, drop_append, get_or_append, append-nil, append_assoc,
  take-length, drop-length, take_prefix, drop_prefix, subst, take-append-drop, tests, ltb→lt,
  ltb→ge, lt→ltb, ge→ltb,
}
use Prim.Native.String.{String}
use protocol_tn.Utils.Hex.{to_hex_string_padded_2, to_hex_string_padded_4}
use protocol_tn.Utils.Binary.{to_binary_string_padded_8, to_binary_string_padded_16}
use protocol_tn.Utils.Text.Lines.{codes, decimal, bar, corner, write_lines}
use protocol_tn.Message.Describe.Names.{
  record_type_description, opcode_description, command_description, order_description,
}
use protocol_tn.Message.Order.Code.{
  start_of_header, repeat_to_address, insert_cursor, set_buffer_address, start_field,
}
use protocol_tn.Message.Order.InsertCursor.{InsertCursor}
use protocol_tn.Message.Order.RepeatToAddress.{RepeatToAddress}
use protocol_tn.Message.Order.SetBufferAddress.{SetBufferAddress}
use protocol_tn.Message.Order.StartField.{StartField}
use protocol_tn.Message.Order.StartOfHeader.{StartOfHeader}
use protocol_tn.Message.Order.{Order, soh, ic, ra, sba, sf}
use protocol_tn.Message.Command.Code.{clear_unit, write_to_display, read_mdt_fields}
use protocol_tn.Message.Command.ClearScreen.{ClearScreen}
use protocol_tn.Message.Command.ReadMdtFields.{ReadMdtFields}
use protocol_tn.Message.Command.WriteToDisplay.{WriteToDisplay}
use protocol_tn.Message.Command.{Command, cs, wtd, rmf}
use protocol_tn.Message.Header
use protocol_tn.Message.Record.{Message}

-- "  │ ", the name of a field with what follows it, and its value.
abbrev pub field : String → Bytes → Bytes
field name value = bar ++ (codes name ++ value)

abbrev pub in_parentheses : Bytes → Bytes
in_parentheses text = codes " (" ++ (text ++ codes ")")

-- A byte in hexadecimal digits and in binary ones, in decimal ones, and as the character it is.
abbrev pub binary_shown : ℕ → Bytes
binary_shown v = to_hex_string_padded_2 v ++ in_parentheses (to_binary_string_padded_8 v)

abbrev pub decimal_shown : ℕ → Bytes
decimal_shown v = to_hex_string_padded_2 v ++ in_parentheses (decimal v)

abbrev pub character_shown : ℕ → Bytes
character_shown v = to_hex_string_padded_2 v ++ in_parentheses (v ∷ [])

abbrev pub order_code_line : ℕ → Bytes
order_code_line code =
    field "code     : 0x" (to_hex_string_padded_2 code ++ in_parentheses (order_description code))

abbrev pub command_code_line : ℕ → Bytes
command_code_line code =
    field "code     : 0x" (to_hex_string_padded_2 code ++ in_parentheses (command_description code))

abbrev pub character_line : Bytes → Bytes
character_line chars = field "repeatedCharacter : [" (chars ++ codes "]")

abbrev pub ic_lines : InsertCursor → List Bytes
ic_lines o =
    codes "<OrderIcInsertCursor>"
    ∷ order_code_line insert_cursor
    ∷ field "rowAddress    : 0x" (character_shown o.row_address)
    ∷ field "columnAddress : 0x" (character_shown o.column_address)
    ∷ corner
    ∷ []

abbrev pub describe_ic : ℕ → InsertCursor → Bytes
describe_ic indent o = write_lines indent (ic_lines o)

abbrev pub ra_lines : RepeatToAddress → List Bytes
ra_lines o =
    codes "<OrderRaRepeatToAddress>"
    ∷ order_code_line repeat_to_address
    ∷ field "rowAddress    : 0x" (decimal_shown o.row_address)
    ∷ field "columnAddress : 0x" (decimal_shown o.column_address)
    ∷ character_line o.repeated_character
    ∷ corner
    ∷ []

abbrev pub describe_ra : ℕ → RepeatToAddress → Bytes
describe_ra indent o = write_lines indent (ra_lines o)

abbrev pub sba_lines : SetBufferAddress → List Bytes
sba_lines o =
    codes "<OrderSbaSetBufferAddress>"
    ∷ order_code_line set_buffer_address
    ∷ field "rowAddress    : 0x" (decimal_shown o.row_address)
    ∷ field "columnAddress : 0x" (decimal_shown o.column_address)
    ∷ character_line o.repeated_character
    ∷ corner
    ∷ []

abbrev pub describe_sba : ℕ → SetBufferAddress → Bytes
describe_sba indent o = write_lines indent (sba_lines o)

-- The loop over the control words. The parameter of to_hex_string_padded_2 is a byte.
abbrev pub control_words_shown : List ℕ → Bytes
control_words_shown [] = codes "]"
control_words_shown (w ∷ ws) =
    codes "0x"
    ++ (to_hex_string_padded_2 (w % 2 ^ 8)
        ++ (codes " ("
            ++ (to_binary_string_padded_16 w ++ (codes "), " ++ control_words_shown ws))))

abbrev pub sf_lines : StartField → List Bytes
sf_lines o =
    codes "<OrderSfStartField>"
    ∷ order_code_line start_field
    ∷ field "formatWord1     : 0x" (binary_shown o.format_word1)
    ∷ field "formatWord2     : 0x" (binary_shown o.format_word2)
    ∷ field "controlWords    : [" (control_words_shown o.control_words)
    ∷ field "attributes      : 0x" (binary_shown o.attributes)
    ∷ field "length          : 0x" (
        to_hex_string_padded_2 (o.field_length / 256 % 2 ^ 8)
        ++ (to_hex_string_padded_2 (o.field_length % 256)
            ++ in_parentheses (decimal o.field_length)))
    ∷ character_line o.repeated_character
    ∷ corner
    ∷ []

abbrev pub describe_sf : ℕ → StartField → Bytes
describe_sf indent o = write_lines indent (sf_lines o)

abbrev pub soh_lines : StartOfHeader → List Bytes
soh_lines o =
    codes "<OrderSohStartOfHeader>"
    ∷ order_code_line start_of_header
    ∷ field "length            : 0x" (character_shown o.header_length)
    ∷ field "flags             : 0x" (binary_shown o.flags)
    ∷ field "flagsReserved     : 0x" (binary_shown o.flags_reserved)
    ∷ field "resequenceToField : 0x" (binary_shown o.resequence_to_field)
    ∷ field "errorRow          : 0x" (decimal_shown o.error_row)
    ∷ field "commandKeySwitch1 : 0x" (binary_shown o.command_key_switch1)
    ∷ field "commandKeySwitch2 : 0x" (binary_shown o.command_key_switch2)
    ∷ field "commandKeySwitch3 : 0x" (binary_shown o.command_key_switch3)
    ∷ corner
    ∷ []

abbrev pub describe_soh : ℕ → StartOfHeader → Bytes
describe_soh indent o = write_lines indent (soh_lines o)

-- std::visit of describe.
unfoldable pub describe_order : ℕ → Order → Bytes
describe_order indent (soh o) = describe_soh indent o
describe_order indent (ic o) = describe_ic indent o
describe_order indent (ra o) = describe_ra indent o
describe_order indent (sba o) = describe_sba indent o
describe_order indent (sf o) = describe_sf indent o

unfoldable pub describe_orders : ℕ → List Order → Bytes
describe_orders indent [] = []
describe_orders indent (o ∷ os) = describe_order indent o ++ describe_orders indent os

abbrev pub cs_lines : ClearScreen → List Bytes
cs_lines c = codes "<CommandCsClearScreen>" ∷ command_code_line clear_unit ∷ corner ∷ []

abbrev pub describe_cs : ℕ → ClearScreen → Bytes
describe_cs indent o = write_lines indent (cs_lines o)

abbrev pub rmf_lines : ReadMdtFields → List Bytes
rmf_lines c =
    codes "<CommandRmfReadMdtFields>"
    ∷ command_code_line read_mdt_fields
    ∷ field "control1 : 0x" (binary_shown c.control1)
    ∷ field "control2 : 0x" (binary_shown c.control2)
    ∷ corner
    ∷ []

abbrev pub describe_rmf : ℕ → ReadMdtFields → Bytes
describe_rmf indent o = write_lines indent (rmf_lines o)

-- The lines above the orders, and those below them.
abbrev pub wtd_head : WriteToDisplay → List Bytes
wtd_head c =
    codes "<CommandWtdWriteToDisplay>"
    ∷ command_code_line write_to_display
    ∷ field "control1 : 0x" (binary_shown c.control1)
    ∷ field "control2 : 0x" (binary_shown c.control2)
    ∷ field "orders (" (decimal (length c.orders) ++ codes "): [")
    ∷ []

abbrev pub closing : List Bytes
closing = field "]" [] ∷ corner ∷ []

unfoldable pub describe_wtd : ℕ → WriteToDisplay → Bytes
describe_wtd indent c =
    write_lines indent (wtd_head c)
    ++ (describe_orders (suc indent) c.orders ++ write_lines indent closing)

-- std::visit of describe.
unfoldable pub describe_command : ℕ → Command → Bytes
describe_command indent (cs c) = describe_cs indent c
describe_command indent (wtd c) = describe_wtd indent c
describe_command indent (rmf c) = describe_rmf indent c

unfoldable pub describe_commands : ℕ → List Command → Bytes
describe_commands indent [] = []
describe_commands indent (c ∷ rest) = describe_command indent c ++ describe_commands indent rest

abbrev pub header_lines : Header.Header → List Bytes
header_lines h =
    codes "<Header>"
    ∷ field "recordLength  : 0x"
        (to_hex_string_padded_4 h.record_length ++ in_parentheses (decimal h.record_length))
    ∷ field "recordType    : 0x" (
        to_hex_string_padded_4 h.record_type
        ++ in_parentheses (record_type_description h.record_type))
    ∷ field "fixedReserved : 0x" (
        to_hex_string_padded_4 h.fixed_reserved
        ++ (codes "(" ++ (to_binary_string_padded_16 h.fixed_reserved ++ codes ")")))
    ∷ corner
    ∷ []

abbrev pub describe_header : ℕ → Header.Header → Bytes
describe_header indent o = write_lines indent (header_lines o)

-- The lines between the header and the commands.
abbrev pub message_fields : Message → List Bytes
message_fields m =
    field "variableLength : " (decimal m.variable_length)
    ∷ field "snaFlags       : 0x" (binary_shown m.sna_flags)
    ∷ field "Reserved       : 0x" (binary_shown m.variable_reserved)
    ∷ field "Operation Code : 0x"
        (to_hex_string_padded_2 m.opcode ++ in_parentheses (opcode_description m.opcode))
    ∷ field "commands (" (decimal (length m.commands) ++ codes "): [")
    ∷ []

unfoldable pub describe : ℕ → Message → Bytes
describe indent m =
    write_lines indent (codes "<5250Message>" ∷ [])
    ++ (describe_header (suc indent) m.header
        ++ (write_lines indent (message_fields m)
            ++ (describe_commands (suc indent) m.commands ++ write_lines indent closing)))
