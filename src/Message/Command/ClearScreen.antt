-- ===== src/Message/Command/ClearScreen.antt =====
-- commands/command_cs_clear_screen.h and .cpp under tn5250/message/command.
use protocol_tn.Base.{ℕ, not, List, [], ◌∷◌, Bytes, length, get_or, ltb, ◌==◌, if◌then◌else◌}
use protocol_tn.Message.Result.{Result, ok, err, command_too_short, no_escape, wrong_command_code}
use protocol_tn.Message.Order.{Order}
use protocol_tn.Message.Command.Code.{escape, clear_unit}

pub record ClearScreen : Type 0 where
  pub code : ℕ
  pub orders : List Order

unfoldable pub unmarshal : Bytes → Result (ClearScreen × ℕ)
unmarshal buffer =
    if ltb (length buffer) 2
    then err command_too_short
    else if not (get_or buffer 0 0 == escape)
    then err no_escape
    else if not (get_or buffer 1 0 == clear_unit)
    then err (wrong_command_code clear_unit)
    else ok (record { code = get_or buffer 1 0; orders = [] }, 2)

abbrev pub marshal : ClearScreen → Bytes
marshal c = escape ∷ clear_unit ∷ []
