-- ===== src/Message/Order/SetBufferAddress.antt =====
-- orders/order_sba_set_buffer_address.h and .cpp under tn5250/message/command/order.
use protocol_tn.Base.{ℕ, ◌+◌, not, [], ◌∷◌, Bytes, length, drop, get_or, ltb, ◌==◌, if◌then◌else◌}
use protocol_tn.Message.Result.{Result, ok, err, order_too_short, invalid_order_code}
use protocol_tn.Message.Order.Code.{set_buffer_address, is_order_code}

pub record SetBufferAddress : Type 0 where
  pub code : ℕ
  pub row_address : ℕ
  pub column_address : ℕ
  pub repeated_character : Bytes

-- The bytes up to the next code of an order.
unfoldable pub display_data : Bytes → Bytes
display_data [] = []
display_data (b ∷ bs) = if is_order_code b then [] else b ∷ display_data bs

unfoldable pub unmarshal : Bytes → Result (SetBufferAddress × ℕ)
unmarshal buffer =
    let chars = display_data (drop 3 buffer) in
    if ltb (length buffer) 3
    then err (order_too_short set_buffer_address)
    else if not (get_or buffer 0 0 == set_buffer_address)
    then err (invalid_order_code set_buffer_address)
    else ok (
      record {
        code = get_or buffer 0 0;
        row_address = get_or buffer 1 0;
        column_address = get_or buffer 2 0;
        repeated_character = chars;
      },
      3 + length chars,
    )

unfoldable pub marshal : SetBufferAddress → Bytes
marshal o = o.code ∷ o.row_address ∷ o.column_address ∷ o.repeated_character
