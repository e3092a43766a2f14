-- ===== src/Message/Order/InsertCursor.antt =====
-- orders/order_ic_insert_cursor.h and .cpp under tn5250/message/command/order. `code` is the member of
-- OrderBase. unmarshal assigns every member where it succeeds, so that its object is its result.
use protocol_tn.Base.{ℕ, not, [], ◌∷◌, Bytes, length, get_or, ltb, ◌==◌, if◌then◌else◌}
use protocol_tn.Message.Result.{Result, ok, err, order_too_short, invalid_order_code}
use protocol_tn.Message.Order.Code.{insert_cursor}

pub record InsertCursor : Type 0 where
  pub code : ℕ
  pub row_address : ℕ
  pub column_address : ℕ

unfoldable pub unmarshal : Bytes → Result (InsertCursor × ℕ)
unmarshal buffer =
    if ltb (length buffer) 3
    then err (order_too_short insert_cursor)
    else if not (get_or buffer 0 0 == insert_cursor)
    then err (invalid_order_code insert_cursor)
    else ok (
      record {
        code = insert_cursor;
        row_address = get_or buffer 1 0;
        column_address = get_or buffer 2 0;
      },
      3,
    )

unfoldable pub marshal : InsertCursor → Bytes
marshal o = o.code ∷ o.row_address ∷ o.column_address ∷ []
