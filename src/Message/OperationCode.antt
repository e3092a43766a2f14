-- ===== src/Message/OperationCode.antt =====
-- tn5250/message/operation_code.h: the operation codes and their tests.
use protocol_tn.Base.{ℕ, Bool, ◌||◌, ◌==◌, ◌≡◌, refl}
use protocol_tn.Decoder.Stream.{carries_payload}

abbrev pub opcode_nop : ℕ
opcode_nop = 0x00

abbrev pub opcode_invite : ℕ
opcode_invite = 0x01

abbrev pub opcode_output_only : ℕ
opcode_output_only = 0x02

abbrev pub opcode_put_get : ℕ
opcode_put_get = 0x03

abbrev pub opcode_save_screen : ℕ
opcode_save_screen = 0x04

abbrev pub opcode_restore_screen : ℕ
opcode_restore_screen = 0x05

abbrev pub opcode_read_immediate : ℕ
opcode_read_immediate = 0x06

abbrev pub opcode_reserved_07 : ℕ
opcode_reserved_07 = 0x07

abbrev pub opcode_read_screen : ℕ
opcode_read_screen = 0x08

abbrev pub opcode_reserved_09 : ℕ
opcode_reserved_09 = 0x09

abbrev pub opcode_cancel_invite : ℕ
opcode_cancel_invite = 0x0A

abbrev pub opcode_message_light_on : ℕ
opcode_message_light_on = 0x0B

abbrev pub opcode_message_light_off : ℕ
opcode_message_light_off = 0x0C

abbrev pub is_nop : ℕ → Bool
is_nop value = value == opcode_nop

abbrev pub is_invite : ℕ → Bool
is_invite value = value == opcode_invite

abbrev pub is_output_only : ℕ → Bool
is_output_only value = value == opcode_output_only

abbrev pub is_put_get : ℕ → Bool
is_put_get value = value == opcode_put_get

abbrev pub is_save_screen : ℕ → Bool
is_save_screen value = value == opcode_save_screen

abbrev pub is_restore_screen : ℕ → Bool
is_restore_screen value = value == opcode_restore_screen

abbrev pub is_read_immediate : ℕ → Bool
is_read_immediate value = value == opcode_read_immediate

abbrev pub is_read_screen : ℕ → Bool
is_read_screen value = value == opcode_read_screen

abbrev pub is_cancel_invite : ℕ → Bool
is_cancel_invite value = value == opcode_cancel_invite

abbrev pub is_message_light_on : ℕ → Bool
is_message_light_on value = value == opcode_message_light_on

abbrev pub is_message_light_off : ℕ → Bool
is_message_light_off value = value == opcode_message_light_off

-- The decoder reads a payload under the operation codes that are so tested, and under no other.
carries_payload-is_output_only :
    (op : ℕ)
    → carries_payload op ≡ (
        is_output_only op
        || is_put_get op
        || is_restore_screen op
        || is_save_screen op
        || is_read_screen op)
unfolding carries_payload
carries_payload-is_output_only op = refl
