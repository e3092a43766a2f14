-- ===== src/Message/Order/RepeatToAddress.antt =====
-- orders/order_ra_repeat_to_address.h and .cpp under tn5250/message/command/order.
use protocol_tn.Base.{ℕ, not, [], ◌∷◌, Bytes, length, get_or, ltb, ◌==◌, if◌then◌else◌}
use protocol_tn.Message.Result.{Result, ok, err, order_too_short, invalid_order_code}
use protocol_tn.Message.Order.Code.{repeat_to_address}

pub record RepeatToAddress : Type 0 where
  pub code : ℕ
  pub row_address : ℕ
  pub column_address : ℕ
  pub repeated_character : Bytes

unfoldable pub unmarshal : Bytes → Result (RepeatToAddress × ℕ)
unmarshal buffer =
    if ltb (length buffer) 4
    then err (order_too_short repeat_to_address)
    else if not (get_or buffer 0 0 == repeat_to_address)
    then err (invalid_order_code repeat_to_address)
    else ok (
      record {
        code = repeat_to_address;
        row_address = get_or buffer 1 0;
        column_address = get_or buffer 2 0;
        repeated_character = get_or buffer 3 0 ∷ [];
      },
      4,
    )

-- Element 0 of an empty std::string is its end, a 0.
unfoldable pub marshal : RepeatToAddress → Bytes
marshal o = o.code ∷ o.row_address ∷ o.column_address ∷ get_or o.repeated_character 0 0 ∷ []
