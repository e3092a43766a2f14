-- ===== src/Message/Order/StartOfHeader.antt =====
-- orders/order_soh_start_of_header.h and .cpp under tn5250/message/command/order.
use protocol_tn.Base.{ℕ, not, [], ◌∷◌, Bytes, length, get_or, ltb, ◌==◌, if◌then◌else◌}
use protocol_tn.Message.Result.{Result, ok, err, order_too_short, invalid_order_code}
use protocol_tn.Message.Order.Code.{start_of_header}

pub record StartOfHeader : Type 0 where
  pub code : ℕ
  pub header_length : ℕ
  pub flags : ℕ
  pub flags_reserved : ℕ
  pub resequence_to_field : ℕ
  pub error_row : ℕ
  pub command_key_switch1 : ℕ
  pub command_key_switch2 : ℕ
  pub command_key_switch3 : ℕ

unfoldable pub unmarshal : Bytes → Result (StartOfHeader × ℕ)
unmarshal buffer =
    if ltb (length buffer) 9
    then err (order_too_short start_of_header)
    else if not (get_or buffer 0 0 == start_of_header)
    then err (invalid_order_code start_of_header)
    else ok (
      record {
        code = get_or buffer 0 0;
        header_length = get_or buffer 1 0;
        flags = get_or buffer 2 0;
        flags_reserved = get_or buffer 3 0;
        resequence_to_field = get_or buffer 4 0;
        error_row = get_or buffer 5 0;
        command_key_switch1 = get_or buffer 6 0;
        command_key_switch2 = get_or buffer 7 0;
        command_key_switch3 = get_or buffer 8 0;
      },
      9,
    )

unfoldable pub marshal : StartOfHeader → Bytes
marshal o =
    o.code ∷ o.header_length ∷ o.flags ∷ o.flags_reserved ∷ o.resequence_to_field ∷ o.error_row
    ∷ o.command_key_switch1 ∷ o.command_key_switch2 ∷ o.command_key_switch3 ∷ []
