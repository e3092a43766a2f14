-- ===== src/Message/Typed/Records.antt =====
-- Messages keep to the ranges of their C++ types, in both directions.
use protocol_tn.Base.{
  ℕ, zero, suc, ◌+◌, ◌-◌, ◌^◌, ◌<◌, Bool, true, false, List, [], ◌∷◌, ◌++◌, Bytes, IsByte, IsBytes,
  All, All-drop, is_empty, length, drop, get_or, replicate, ltb, leb, if◌then◌else◌, arith,
}
use protocol_tn.Message.Result.{Result, ok, err, ◌>>=◌}
use protocol_tn.Message.Command.{Command, unmarshal_command, marshal_command}
use protocol_tn.Message.Header
use protocol_tn.Message.Record.{
  Message, push_command, next_command, unmarshal_commands, unmarshal_variable, with_header,
  unmarshal, marshal_commands, written_length, marshal_record, marshal,
}
use protocol_tn.Message.Typed.Orders.{OnOk, byte_at, append-IsBytes}
use protocol_tn.Message.Typed.Commands.{
  CommandFits, Reads, picked, unmarshal_command-CommandFits, marshal_command-IsBytes,
}

-- The members are in the ranges of uint8_t and uint16_t.
pub record MessageFits (m : Message) : Type 0 where
  pub record_length : m.header.record_length < 2 ^ 16
  pub record_type : m.header.record_type < 2 ^ 16
  pub fixed_reserved : m.header.fixed_reserved < 2 ^ 16
  pub variable : IsBytes (m.variable_length ∷ m.sna_flags ∷ m.variable_reserved ∷ m.opcode ∷ [])
  pub commands : All CommandFits m.commands

append-CommandFits :
    (xs ys : List Command) → All CommandFits xs → All CommandFits ys → All CommandFits (xs ++ ys)
append-CommandFits [] ys h k = k
append-CommandFits (x ∷ xs) ys (h, hs) k = (h, append-CommandFits xs ys hs k)

push_command-MessageFits :
    (m : Message) (c : Command) → MessageFits m → CommandFits c → MessageFits (push_command m c)
push_command-MessageFits m c v h = record {
  record_length = v.record_length;
  record_type = v.record_type;
  fixed_reserved = v.fixed_reserved;
  variable = v.variable;
  commands = append-CommandFits m.commands (c ∷ []) v.commands (h, tt);
}

next_command_fits :
    (again : Command → ℕ → Message × Result ℕ) (m : Message) (r : Result (Command × ℕ))
    → MessageFits m
    → ((c : Command) (n : ℕ) → CommandFits c → MessageFits (again c n).0)
    → Reads r
    → MessageFits (next_command again m r).0
next_command_fits again m (ok (c, n)) v k h = k c n h
next_command_fits again m (err e) v k h = v

commands_fit :
    (f n : ℕ) (bs : Bytes) (m : Message)
    → IsBytes bs
    → MessageFits m
    → MessageFits (unmarshal_commands f n bs m).0
unfolding unmarshal_commands
commands_fit f n [] m h v = v
commands_fit zero n (b ∷ bs) m h v = v
commands_fit (suc f) n (b ∷ bs) m h v =
    next_command_fits _ m (unmarshal_command (b ∷ bs)) v
      (λ c k w.
        commands_fit f (n + k) (drop k (b ∷ bs)) (push_command m c) (All-drop IsByte k (b ∷ bs) h)
          (push_command-MessageFits m c v w))
      (unmarshal_command-CommandFits (b ∷ bs) h)

either :
    (c : Bool) (x y : Message × Result ℕ)
    → MessageFits x.0
    → MessageFits y.0
    → MessageFits (if c then x else y).0
either true x y h k = h
either false x y h k = k

variable_fits :
    (bs : Bytes) (n : ℕ) (m : Message)
    → IsBytes bs
    → MessageFits m
    → MessageFits (unmarshal_variable bs n m).0
unfolding unmarshal_variable
variable_fits bs n m h v =
    let at = λ (i : ℕ). byte_at bs i h in
    let sized : MessageFits (record m { variable_length = get_or bs n 0 }) = record {
      record_length = v.record_length;
      record_type = v.record_type;
      fixed_reserved = v.fixed_reserved;
      variable = (at n, v.variable.1);
      commands = v.commands;
    } in
    either (leb (length bs) n) _ _ v (
      either (ltb (get_or bs n 0) 4) _ _ sized (
        either (ltb (length bs) (n + get_or bs n 0)) _ _ sized (
          commands_fit (length bs) (n + get_or bs n 0) (drop (n + get_or bs n 0) bs) _
            (All-drop IsByte (n + get_or bs n 0) bs h)
            (record {
              record_length = v.record_length;
              record_type = v.record_type;
              fixed_reserved = v.fixed_reserved;
              variable = (at n, (at (n + 1), (at (n + 2), (at (n + 3), tt))));
              commands = v.commands;
            }))))

header_fits :
    (bs : Bytes) (m : Message) (r : Result (Header.Header × ℕ))
    → IsBytes bs
    → MessageFits m
    → OnOk
        (λ p.
          (p.0.record_length < 2 ^ 16) × (p.0.record_type < 2 ^ 16) × (p.0.fixed_reserved < 2 ^ 16))
        r
    → MessageFits (with_header bs m r).0
header_fits bs m (ok (x, n)) h v (a, b, c) =
    variable_fits bs n (record m { header = x }) h
      (record {
        record_length = a;
        record_type = b;
        fixed_reserved = c;
        variable = v.variable;
        commands = v.commands;
      })
header_fits bs m (err e) h v k = v

unmarshal-MessageFits :
    (bs : Bytes) (m : Message) → IsBytes bs → MessageFits m → MessageFits (unmarshal bs m).0
unfolding unmarshal Header.unmarshal
unmarshal-MessageFits bs m h v = header_fits bs m (Header.unmarshal bs) h v (ground arith)

behind :
    (bs : Bytes) (r : Result Bytes)
    → IsBytes bs
    → OnOk IsBytes r
    → OnOk IsBytes (r >>= λ rest. ok (bs ++ rest))
behind bs (ok rest) h k = append-IsBytes bs rest h k
behind bs (err e) h k = tt

marshal_commands-IsBytes :
    (xs : List Command) → All CommandFits xs → OnOk IsBytes (marshal_commands xs)
unfolding marshal_commands
marshal_commands-IsBytes [] h = tt
marshal_commands-IsBytes (c ∷ xs) (h, hs) = picked IsBytes (is_empty (marshal_command c)) _ _ tt (
    behind (marshal_command c) (marshal_commands xs) (marshal_command-IsBytes c h)
      (marshal_commands-IsBytes xs hs))

replicate-IsBytes : (n : ℕ) → IsBytes (replicate n 0)
replicate-IsBytes zero = tt
replicate-IsBytes (suc n) = (omega arith, replicate-IsBytes n)

marshal_record-IsBytes :
    (m : Message) (payload : Bytes)
    → MessageFits m
    → IsBytes payload
    → OnOk IsBytes (marshal_record m payload)
unfolding marshal_record
marshal_record-IsBytes m payload v h =
    let (a, (b, (c, (d, e)))) = v.variable in
    let len : written_length m < 256 = ground (arith, a) in
    picked IsBytes (ltb 0xFFFF (2 + 2 + 2 + written_length m + length payload)) _ _ tt (
      omega arith,
      (
        omega arith,
        (
          omega arith,
          (
            omega arith,
            (
              omega arith,
              (
                omega arith,
                (
                  len,
                  (
                    b,
                    (
                      c,
                      (
                        d,
                        append-IsBytes (replicate (written_length m - 4) 0) payload
                            (replicate-IsBytes (written_length m - 4)) h,
                      ),
                    ),
                  ),
                ),
              ),
            ),
          ),
        ),
      ),
    )

recorded :
    (m : Message) (r : Result Bytes)
    → MessageFits m
    → OnOk IsBytes r
    → OnOk IsBytes (r >>= marshal_record m)
recorded m (ok bs) v h = marshal_record-IsBytes m bs v h
recorded m (err e) v h = tt

-- A message whose members are in the ranges of their C++ types, uint8_t and uint16_t, keeps them there when
-- it unmarshals any bytes, also where that fails half way; and what it marshals is bytes.
pub unmarshal-marshal-MessageFits :
    (buffer : Bytes) (m : Message)
    → IsBytes buffer
    → MessageFits m
    → MessageFits (unmarshal buffer m).0 × OnOk IsBytes (marshal m)
unfolding marshal
unmarshal-marshal-MessageFits buffer m h v = (
  unmarshal-MessageFits buffer m h v,
  recorded m (marshal_commands m.commands) v (marshal_commands-IsBytes m.commands v.commands),
)
