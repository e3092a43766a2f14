-- ===== src/Message/Command/Code.antt =====
-- The codes of tn5250/message/command/command_code.h.
use protocol_tn.Base.{ℕ}

abbrev pub escape : ℕ
escape = 0x04

abbrev pub erase_write : ℕ
erase_write = 0x05

abbrev pub read_modify : ℕ
read_modify = 0x06

abbrev pub read_modify_write : ℕ
read_modify_write = 0x07

abbrev pub erase_write_alternate : ℕ
erase_write_alternate = 0x0D

abbrev pub write_to_display : ℕ
write_to_display = 0x11

abbrev pub clear_unit_alternate : ℕ
clear_unit_alternate = 0x20

abbrev pub write_error_code : ℕ
write_error_code = 0x21

abbrev pub roll : ℕ
roll = 0x23

abbrev pub clear_unit : ℕ
clear_unit = 0x40

abbrev pub read_input_fields : ℕ
read_input_fields = 0x42

abbrev pub clear_format_table : ℕ
clear_format_table = 0x50

abbrev pub read_mdt_fields : ℕ
read_mdt_fields = 0x52

abbrev pub read_immediate : ℕ
read_immediate = 0x72
