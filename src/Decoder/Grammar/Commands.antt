-- ===== src/Decoder/Grammar/Commands.antt =====
-- The decoder's loop over a payload, against the grammar of host commands.
use protocol_tn.Base.{
  ℕ, ◌+◌, ◌-◌, ◌/◌, ◌%◌, ◌≤◌, ◌<◌, Bool, true, false, List, [], ◌∷◌, ◌++◌, Bytes, All, be16, length,
  leb, ◌==◌, if◌then◌else◌, ◌≡◌, ◌≢◌,
}
use protocol_tn.Protocol.{
  esc, cc_clear_unit, cc_clear_unit_alternate, cc_write_to_display, cc_write_error_code, cc_roll,
  cc_read_input_fields, cc_clear_format_table, cc_read_mdt_fields, cc_read_immediate,
  cc_write_error_code_to_window, cc_write_structured_field, cc_read_screen, cc_read_screen_alt, soh,
}
use protocol_tn.Decoder.Event.{
  read_mdt_fields, read_input_fields, read_immediate, on_command_received, on_clear_screen,
  on_clear_screen_alternate, on_keyboard_unlock, on_control_characters, on_roll,
  on_write_error_code, on_clear_format_table, on_read_screen, on_write_structured_field, Output,
  silent, calls, ◌then_also◌,
}
use protocol_tn.Decoder.Orders.Ends.{AtEsc}
use protocol_tn.Decoder.Grammar.{
  DisplayOrder, header_events, orders_bytes, AreOrders, orders_meaning,
}

-- A structured field: the two bytes of its length, and its body.
abbrev pub StructuredField : Type 0
StructuredField = ℕ × ℕ × Bytes

pub data HostCommand : Type 0 where
  clear_unit : HostCommand
  clear_unit_alternate : HostCommand
  clear_format_table : HostCommand
  -- Write Error Code, to a window or not.
  error_code : Bool → Bytes → HostCommand
  -- Direction and lines as the bytes hold them, and the top and bottom row, from 1.
  roll_lines : ℕ → ℕ → ℕ → ℕ → HostCommand
  -- The reads carry two control bytes.
  read_input : ℕ → ℕ → HostCommand
  read_mdt : ℕ → ℕ → HostCommand
  read_now : ℕ → ℕ → HostCommand
  read_screen : Bool → ℕ → ℕ → HostCommand
  structured_fields : List StructuredField → HostCommand
  display : ℕ → ℕ → List DisplayOrder → HostCommand
  -- A Start of Header outside Write To Display.
  start_of_header : Bytes → HostCommand

abbrev pub fields_bytes : List StructuredField → Bytes
fields_bytes [] = []
fields_bytes ((hi, lo, body) ∷ fs) = hi ∷ lo ∷ (body ++ fields_bytes fs)

-- The bytes of a command in front of `rest`.
abbrev pub command_bytes : HostCommand → Bytes → Bytes
command_bytes clear_unit rest = esc ∷ cc_clear_unit ∷ rest
command_bytes clear_unit_alternate rest = esc ∷ cc_clear_unit_alternate ∷ rest
command_bytes clear_format_table rest = esc ∷ cc_clear_format_table ∷ rest
command_bytes (error_code false msg) rest = esc ∷ cc_write_error_code ∷ (msg ++ rest)
command_bytes (error_code true msg) rest = esc ∷ cc_write_error_code_to_window ∷ (msg ++ rest)
command_bytes (roll_lines c1 c2 top bot) rest = esc ∷ cc_roll ∷ c1 ∷ c2 ∷ top ∷ bot ∷ rest
command_bytes (read_input a b) rest = esc ∷ cc_read_input_fields ∷ a ∷ b ∷ rest
command_bytes (read_mdt a b) rest = esc ∷ cc_read_mdt_fields ∷ a ∷ b ∷ rest
command_bytes (read_now a b) rest = esc ∷ cc_read_immediate ∷ a ∷ b ∷ rest
command_bytes (read_screen false a b) rest = esc ∷ cc_read_screen ∷ a ∷ b ∷ rest
command_bytes (read_screen true a b) rest = esc ∷ cc_read_screen_alt ∷ a ∷ b ∷ rest
command_bytes (structured_fields fs) rest =
    esc ∷ cc_write_structured_field ∷ (fields_bytes fs ++ rest)
command_bytes (display c1 c2 os) rest = esc ∷ cc_write_to_display ∷ c1 ∷ c2 ∷ orders_bytes os rest
command_bytes (start_of_header body) rest = soh ∷ length body ∷ (body ++ rest)

abbrev pub command_meaning : HostCommand → Output
command_meaning clear_unit = calls (on_clear_screen ∷ [])
command_meaning clear_unit_alternate = calls (on_clear_screen_alternate ∷ [])
command_meaning clear_format_table = calls (on_clear_format_table ∷ [])
command_meaning (error_code window msg) = calls (on_write_error_code msg ∷ [])
command_meaning (roll_lines c1 c2 top bot) =
    calls (on_roll (top - 1) (bot - 1) (c2 % 32) (leb 128 c1) ∷ [])
command_meaning (read_input a b) = calls (on_command_received read_input_fields [] ∷ [])
command_meaning (read_mdt a b) = calls (on_command_received read_mdt_fields [] ∷ [])
command_meaning (read_now a b) = calls (on_command_received read_immediate [] ∷ [])
command_meaning (read_screen attrs a b) = calls (on_read_screen attrs ∷ [])
command_meaning (structured_fields fs) = calls (on_write_structured_field (fields_bytes fs) ∷ [])
command_meaning (display c1 c2 os) =
    calls (on_control_characters c1 c2 ∷ (if c2 / 8 % 2 == 1 then on_keyboard_unlock ∷ [] else []))
    then_also orders_meaning os
command_meaning (start_of_header body) = calls (header_events body)

-- A length field counts its own two bytes, and its high byte is not the ESC byte, at which the
-- decoder stops its walk.
abbrev pub IsField : StructuredField → Type 0
IsField (hi, lo, body) = (hi ≢ esc) × (be16 hi lo ≡ 2 + length body)

-- The command is well formed, with `rest` behind it: a command without a length of its own ends at
-- an ESC or with the payload.
abbrev pub IsCommand : HostCommand → Bytes → Type 0
IsCommand (error_code window msg) rest = All (λ b. b ≢ esc) msg × AtEsc rest
IsCommand (roll_lines c1 c2 top bot) rest =
    (c1 < 256) × (1 ≤ top) × (top < 256) × (1 ≤ bot) × (bot < 256)
IsCommand (structured_fields fs) rest = All IsField fs × AtEsc rest
IsCommand (display c1 c2 os) rest = AreOrders os rest × AtEsc rest
IsCommand _ rest = Unit

abbrev pub commands_bytes : List HostCommand → Bytes
commands_bytes [] = []
commands_bytes (c ∷ cs) = command_bytes c (commands_bytes cs)

abbrev pub AreCommands : List HostCommand → Type 0
AreCommands [] = Unit
AreCommands (c ∷ cs) = IsCommand c (commands_bytes cs) × AreCommands cs

abbrev pub commands_meaning : List HostCommand → Output
commands_meaning [] = silent
commands_meaning (c ∷ cs) = command_meaning c then_also commands_meaning cs
