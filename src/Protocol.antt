-- ===== src/Protocol.antt =====
-- tn5250/protocol_constants.h: the constants of the 5250 data stream, under the source's names.
use protocol_tn.Base.{ℕ, Bytes, [], ◌∷◌, ◌+◌}

abbrev pub esc : ℕ
esc = 0x04

abbrev pub soh : ℕ
soh = 0x01

abbrev pub cc_clear_unit : ℕ
cc_clear_unit = 0x40

abbrev pub cc_clear_unit_alternate : ℕ
cc_clear_unit_alternate = 0x20

abbrev pub cc_write_to_display : ℕ
cc_write_to_display = 0x11

abbrev pub cc_write_error_code : ℕ
cc_write_error_code = 0x21

abbrev pub cc_roll : ℕ
cc_roll = 0x23

abbrev pub cc_read_input_fields : ℕ
cc_read_input_fields = 0x42

abbrev pub cc_clear_format_table : ℕ
cc_clear_format_table = 0x50

abbrev pub cc_read_mdt_fields : ℕ
cc_read_mdt_fields = 0x52

abbrev pub cc_read_immediate : ℕ
cc_read_immediate = 0x72

abbrev pub cc_write_error_code_to_window : ℕ
cc_write_error_code_to_window = 0x22

abbrev pub cc_write_structured_field : ℕ
cc_write_structured_field = 0xF3

abbrev pub neg_request_error : ℕ
neg_request_error = 0x10

abbrev pub neg_request_reject : ℕ
neg_request_reject = 0x08

abbrev pub neg_state_error : ℕ
neg_state_error = 0x20

abbrev pub neg_usage_error : ℕ
neg_usage_error = 0x40

abbrev pub gds_opcode_invite : ℕ
gds_opcode_invite = 0x01

abbrev pub gds_opcode_output_only : ℕ
gds_opcode_output_only = 0x02

abbrev pub gds_opcode_put_get : ℕ
gds_opcode_put_get = 0x03

abbrev pub gds_opcode_save_screen : ℕ
gds_opcode_save_screen = 0x04

abbrev pub gds_opcode_restore : ℕ
gds_opcode_restore = 0x05

abbrev pub gds_opcode_read_screen : ℕ
gds_opcode_read_screen = 0x08

abbrev pub gds_opcode_cancel_invite : ℕ
gds_opcode_cancel_invite = 0x0A

abbrev pub gds_opcode_msg_light_on : ℕ
gds_opcode_msg_light_on = 0x0B

abbrev pub gds_opcode_msg_light_off : ℕ
gds_opcode_msg_light_off = 0x0C

abbrev pub gds_flag_err : ℕ
gds_flag_err = 0x80

abbrev pub gds_flag_atn : ℕ
gds_flag_atn = 0x40

abbrev pub gds_flag_srq : ℕ
gds_flag_srq = 0x04

abbrev pub gds_min_record_len : ℕ
gds_min_record_len = 6

abbrev pub gds_max_record_len : ℕ
gds_max_record_len = 65535

abbrev pub gds_header_size : ℕ
gds_header_size = 10

abbrev pub gds_record_type_hi : ℕ
gds_record_type_hi = 0x12

abbrev pub gds_record_type_lo : ℕ
gds_record_type_lo = 0xA0

abbrev pub gds_var_hdr_len : ℕ
gds_var_hdr_len = 0x04

abbrev pub order_sba : ℕ
order_sba = 0x11

abbrev pub order_sf : ℕ
order_sf = 0x1D

abbrev pub order_ra : ℕ
order_ra = 0x02

abbrev pub order_ea : ℕ
order_ea = 0x03

abbrev pub order_ic : ℕ
order_ic = 0x13

abbrev pub order_mc : ℕ
order_mc = 0x14

abbrev pub order_td : ℕ
order_td = 0x10

abbrev pub order_wea : ℕ
order_wea = 0x12

abbrev pub order_wdsf : ℕ
order_wdsf = 0x15

abbrev pub cc_read_screen : ℕ
cc_read_screen = 0x62

abbrev pub cc_read_screen_alt : ℕ
cc_read_screen_alt = 0x66

abbrev pub default_screen_rows : ℕ
default_screen_rows = 24

abbrev pub default_screen_cols : ℕ
default_screen_cols = 80

abbrev pub ebcdic_space : ℕ
ebcdic_space = 0x40

abbrev pub strpccmd_trigger : ℕ
strpccmd_trigger = 0x80

abbrev pub strpccmd_marker_len : ℕ
strpccmd_marker_len = 1 + 9

abbrev pub strpccmd_max_command_len : ℕ
strpccmd_max_command_len = 123

abbrev pub strpccmd_signature : Bytes
strpccmd_signature = 0xFC ∷ 0xD7 ∷ 0xC3 ∷ 0xD6 ∷ 0x40 ∷ 0x83 ∷ 0x80 ∷ 0xA1 ∷ 0x80 ∷ []
