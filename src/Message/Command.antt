-- ===== src/Message/Command.antt =====
-- tn5250/message/command: the commands of a record as objects, and their dispatch.
pub mod Code
pub mod ClearScreen
pub mod ReadMdtFields
pub mod WriteToDisplay
pub mod Reads
use protocol_tn.Base.{
  ℕ, zero, suc, ◌+◌, ◌-◌, ◌*◌, ◌/◌, ◌%◌, ◌^◌, ◌≤◌, ◌<◌, min, Bool, true, false, not, ◌&&◌, ◌||◌,
  Option, none, some, List, [], ◌∷◌, ◌++◌, map, Bytes, IsByte, IsBytes, All, be16, is_empty, length,
  take, drop, get_or, set, replicate, ltb, leb, ◌==◌, if◌then◌else◌, ◌≡◌, refl, sym, ap, ap₂, ◌∙◌,
  ◌≢◌, inl, inr, ◌⊎◌, arith, Bool-cases, ==_iff, length-append, length-take, length-drop,
  take_append, drop_append, get_or_append, append-nil, append_assoc, take-length, drop-length,
  take_prefix, drop_prefix, subst, take-append-drop, tests, ltb→lt, ltb→ge, lt→ltb, ge→ltb,
}
use protocol_tn.Message.Result.{Result, ok, err, ◌>>=◌, command_too_short, no_escape}
use protocol_tn.Message.Command.Code.{escape, clear_unit, write_to_display, read_mdt_fields}
use protocol_tn.Message.Command.ClearScreen
use protocol_tn.Message.Command.ReadMdtFields
use protocol_tn.Message.Command.WriteToDisplay

pub data Command : Type 0 where
  cs : ClearScreen.ClearScreen → Command
  wtd : WriteToDisplay.WriteToDisplay → Command
  rmf : ReadMdtFields.ReadMdtFields → Command

abbrev pub as_command {ℓ} : {A : Type ℓ} → (A → Command) → Result (A × ℕ) → Result (Command × ℕ)
as_command f (ok (c, n)) = ok (f c, n)
as_command f (err e) = err e

-- What a std::variant of the commands holds before it is assigned: its first alternative, with no
-- code and no orders.
abbrev pub default_command : Command
default_command = cs (record { code = 0; orders = [] })

-- The command at the start of the buffer, and the bytes that it takes. A code without a parser
-- takes the whole buffer, and leaves the command as it was declared.
unfoldable pub unmarshal_command : Bytes → Result (Command × ℕ)
unmarshal_command buffer =
    let cmd = get_or buffer 1 0 in
    if ltb (length buffer) 2
    then err command_too_short
    else if not (get_or buffer 0 0 == escape)
    then err no_escape
    else if cmd == clear_unit
    then as_command cs (ClearScreen.unmarshal buffer)
    else if cmd == write_to_display
    then as_command wtd (WriteToDisplay.unmarshal buffer)
    else if cmd == read_mdt_fields
    then as_command rmf (ReadMdtFields.unmarshal buffer)
    else ok (default_command, length buffer)

-- std::visit of marshal, with an error that is empty.
abbrev pub marshal_command : Command → Bytes
marshal_command (cs c) = ClearScreen.marshal c
marshal_command (wtd c) = WriteToDisplay.marshal false c
marshal_command (rmf c) = ReadMdtFields.marshal c
