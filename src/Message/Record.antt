-- ===== src/Message/Record.antt =====
-- tn5250/message/message.h and message.cpp: Message::unmarshal and Message::marshal.
pub mod Loop
pub mod RoundTrip
pub mod Errors
use protocol_tn.Base.{
  ℕ, zero, suc, ◌+◌, ◌-◌, ◌*◌, ◌/◌, ◌%◌, ◌^◌, ◌≤◌, ◌<◌, min, Bool, true, false, not, ◌&&◌, ◌||◌,
  Option, none, some, List, [], ◌∷◌, ◌++◌, map, Bytes, IsByte, IsBytes, All, be16, is_empty, length,
  take, drop, get_or, set, replicate, ltb, leb, ◌==◌, if◌then◌else◌, ◌≡◌, refl, sym, ap, ap₂, ◌∙◌,
  ◌≢◌, inl, inr, ◌⊎◌, arith, Bool-cases, ==_iff, length-append, length-take, length-drop,
  take_append, drop_append, get_or_append, append-nil, append_assoc, take-length, drop-length,
  take_prefix, drop_prefix, subst, take-append-drop, tests, ltb→lt, ltb→ge, lt→ltb, ge→ltb,
}
use protocol_tn.Utils.Endian.{be16_write}
use protocol_tn.Message.Result.{
  Result, ok, err, ◌>>=◌, in_commands, variable_length_missing, variable_header_too_short,
  variable_header_cut, marshalling_command, record_too_large,
}
use protocol_tn.Message.Command.{Command, unmarshal_command, marshal_command}
use protocol_tn.Message.Header

pub record Message : Type 0 where
  pub header : Header.Header
  pub variable_length : ℕ
  pub sna_flags : ℕ
  pub variable_reserved : ℕ
  pub opcode : ℕ
  pub commands : List Command

abbrev pub new : Message
new = record {
  header = Header.new;
  variable_length = 0;
  sna_flags = 0;
  variable_reserved = 0;
  opcode = 0;
  commands = [];
}

-- commands.push_back
abbrev pub push_command : Message → Command → Message
push_command m c = record m { commands = m.commands ++ (c ∷ []) }

-- What unmarshal_command returns, and the rest of the loop behind it.
abbrev pub next_command :
    (Command → ℕ → Message × Result ℕ) → Message → Result (Command × ℕ) → Message × Result ℕ
next_command again m (ok (c, n)) = again c n
next_command again m (err e) = (m, err (in_commands e))

-- The loop, with `rest` from `read_bytes` on. Fuel: each command takes a byte at least.
unfoldable pub unmarshal_commands : ℕ → ℕ → Bytes → Message → Message × Result ℕ
unmarshal_commands fuel read_bytes [] m = (m, ok read_bytes)
unmarshal_commands zero read_bytes (b ∷ rest) m = (m, ok read_bytes)
unmarshal_commands (suc fuel) read_bytes (b ∷ rest) m =
    next_command
      (λ c n. unmarshal_commands fuel (read_bytes + n) (drop n (b ∷ rest)) (push_command m c)) m
      (unmarshal_command (b ∷ rest))

-- Behind the fixed header, of which `read_bytes` bytes have been read.
unfoldable pub unmarshal_variable : Bytes → ℕ → Message → Message × Result ℕ
unmarshal_variable buffer read_bytes m =
    let len = get_or buffer read_bytes 0 in
    let needed = read_bytes + len in
    let sized : Message = record m { variable_length = len } in
    let described : Message = record sized {
      sna_flags = get_or buffer (read_bytes + 1) 0;
      variable_reserved = get_or buffer (read_bytes + 2) 0;
      opcode = get_or buffer (read_bytes + 3) 0;
    } in
    if leb (length buffer) read_bytes
    then (m, err variable_length_missing)
    else if ltb len 4
    then (sized, err variable_header_too_short)
    else if ltb (length buffer) needed
    then (sized, err variable_header_cut)
    else unmarshal_commands (length buffer) needed (drop needed buffer) described

abbrev pub with_header : Bytes → Message → Result (Header.Header × ℕ) → Message × Result ℕ
with_header buffer m (ok (h, n)) = unmarshal_variable buffer n (record m { header = h })
with_header buffer m (err e) = (m, err e)

-- The message is the object that the method is called on: what it holds when the method fails
-- is what it has been given until then, and `commands` is never cleared.
unfoldable pub unmarshal : Bytes → Message → Message × Result ℕ
unmarshal buffer m = with_header buffer m (Header.unmarshal buffer)

unfoldable pub marshal_commands : List Command → Result Bytes
marshal_commands [] = ok []
marshal_commands (c ∷ cs) =
    let bytes = marshal_command c in
    if is_empty bytes
    then err marshalling_command
    else (marshal_commands cs >>= λ rest. ok (bytes ++ rest))

-- The length byte that is written.
abbrev pub written_length : Message → ℕ
written_length m = if ltb m.variable_length 4 then 4 else m.variable_length

unfoldable pub marshal_record : Message → Bytes → Result Bytes
marshal_record m payload =
    let var_len = written_length m in
    let total_len = 2 + 2 + 2 + var_len + length payload in
    let fixed =
      be16_write (be16_write (be16_write [] (total_len % 2 ^ 16)) m.header.record_type)
        m.header.fixed_reserved in
    if ltb 0xFFFF total_len
    then err record_too_large
    else ok (
        fixed
        ++ (var_len
            ∷ m.sna_flags
            ∷ m.variable_reserved
            ∷ m.opcode
            ∷ (replicate (var_len - 4) 0 ++ payload)))

unfoldable pub marshal : Message → Result Bytes
marshal m = marshal_commands m.commands >>= marshal_record m
