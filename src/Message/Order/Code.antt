-- ===== src/Message/Order/Code.antt =====
-- tn5250/message/command/order/order_code.h: the codes of the orders.
use protocol_tn.Base.{ℕ, Bool, ◌||◌, ◌==◌}

abbrev pub start_of_header : ℕ
start_of_header = 0x01

abbrev pub repeat_to_address : ℕ
repeat_to_address = 0x02

abbrev pub insert_cursor : ℕ
insert_cursor = 0x03

abbrev pub set_buffer_address : ℕ
set_buffer_address = 0x11

abbrev pub start_field : ℕ
start_field = 0x1D

-- The lambda isOrderCode, which stands in order.cpp and in order_sba_set_buffer_address.cpp.
abbrev pub is_order_code : ℕ → Bool
is_order_code b =
    (b == start_of_header)
    || (b == repeat_to_address)
    || (b == insert_cursor)
    || (b == set_buffer_address)
    || (b == start_field)
