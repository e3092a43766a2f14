-- ===== src/Message/Header.antt =====
-- tn5250/message/header: header.h, header.cpp and record_type.h.
use protocol_tn.Base.{ℕ, Bool, [], Bytes, length, get_or, ltb, ◌==◌, if◌then◌else◌}
use protocol_tn.Utils.Endian.{be16_read, be16_write}
use protocol_tn.Message.Result.{Result, ok, err, fixed_header_too_short}

abbrev pub general_data_stream : ℕ
general_data_stream = 0x12A0

pub record Header : Type 0 where
  pub record_length : ℕ
  pub record_type : ℕ
  pub fixed_reserved : ℕ

abbrev pub new : Header
new = record { record_length = 0; record_type = 0; fixed_reserved = 0 }

abbrev pub is_general_data_stream : Header → Bool
is_general_data_stream h = h.record_type == general_data_stream

-- A failure leaves the header as it was.
unfoldable pub unmarshal : Bytes → Result (Header × ℕ)
unmarshal buffer =
    let header : Header = record {
      record_length = be16_read (get_or buffer 0 0) (get_or buffer 1 0);
      record_type = be16_read (get_or buffer 2 0) (get_or buffer 3 0);
      fixed_reserved = be16_read (get_or buffer 4 0) (get_or buffer 5 0);
    } in
    if ltb (length buffer) 6 then err fixed_header_too_short else ok (header, 6)

unfoldable pub marshal : Header → Bytes
marshal h = be16_write (be16_write (be16_write [] h.record_length) h.record_type) h.fixed_reserved
