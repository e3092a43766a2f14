-- ===== src/Message/Command/ReadMdtFields.antt =====
-- commands/command_rmf_read_mdt_fields.h and .cpp under tn5250/message/command.
use protocol_tn.Base.{ℕ, not, List, [], ◌∷◌, Bytes, length, get_or, ltb, ◌==◌, if◌then◌else◌}
use protocol_tn.Message.Result.{
  Result, ok, err, control_bytes_missing, no_escape, wrong_command_code,
}
use protocol_tn.Message.Order.{Order}
use protocol_tn.Message.Command.Code.{escape, read_mdt_fields}

pub record ReadMdtFields : Type 0 where
  pub code : ℕ
  pub orders : List Order
  pub control1 : ℕ
  pub control2 : ℕ

unfoldable pub unmarshal : Bytes → Result (ReadMdtFields × ℕ)
unmarshal buffer =
    let command : ReadMdtFields = record {
      code = get_or buffer 1 0;
      orders = [];
      control1 = get_or buffer 2 0;
      control2 = get_or buffer 3 0;
    } in
    if ltb (length buffer) 4
    then err control_bytes_missing
    else if not (get_or buffer 0 0 == escape)
    then err no_escape
    else if not (get_or buffer 1 0 == read_mdt_fields)
    then err (wrong_command_code read_mdt_fields)
    else ok (command, 4)

abbrev pub marshal : ReadMdtFields → Bytes
marshal c = escape ∷ read_mdt_fields ∷ c.control1 ∷ c.control2 ∷ []
