-- ===== src/Message/Record/Loop.antt =====
-- The loop of Message::unmarshal over the commands of a record: its fuel, and what it reads.
use protocol_tn.Base.{
  ℕ, zero, suc, ◌+◌, ◌≤◌, false, List, [], ◌∷◌, ◌++◌, Bytes, is_empty, length, drop, ◌≡◌, refl, sym,
  ap, ap₂, ◌∙◌, arith, length-append, length-drop, append-nil, append_assoc, drop-length, subst,
}
use protocol_tn.Message.Result.{Result, ok, err}
use protocol_tn.Message.Order.Loop.{TakesWithin}
use protocol_tn.Message.Command.{Command, cs, wtd, rmf, unmarshal_command, marshal_command}
use protocol_tn.Message.Command.WriteToDisplay
use protocol_tn.Message.Command.Reads.{
  IsCommand, Precedes, unmarshal_command-TakesWithin, unmarshal_command-marshal_command,
}
use protocol_tn.Message.Record.{
  Message, push_command, next_command, unmarshal_commands, marshal_commands,
}

next_command-agree :
    (k l : Command → ℕ → Message × Result ℕ) (m : Message) (size : ℕ) (r : Result (Command × ℕ))
    → TakesWithin size r
    → ((c : Command) (n : ℕ) → 1 ≤ n → n ≤ size → k c n ≡ l c n)
    → next_command k m r ≡ next_command l m r
next_command-agree k l m size (ok (c, n)) (lo, hi) h = h c n lo hi
next_command-agree k l m size (err e) w h = refl

-- Any fuel that is the length of what is left at least gives the same message and the same outcome:
-- the loop ends before its fuel.
pub unmarshal_commands-fuel :
    (f g r : ℕ) (bs : Bytes) (m : Message)
    → length bs ≤ f
    → length bs ≤ g
    → unmarshal_commands f r bs m ≡ unmarshal_commands g r bs m
unfolding unmarshal_commands
unmarshal_commands-fuel f g r [] m h k = refl
unmarshal_commands-fuel zero g r (b ∷ bs) m h k = absurd (omega arith)
unmarshal_commands-fuel (suc f) zero r (b ∷ bs) m h k = absurd (omega arith)
unmarshal_commands-fuel (suc f) (suc g) r (b ∷ bs) m h k =
    let size = length (b ∷ bs) in
    next_command-agree (λ c n. unmarshal_commands f (r + n) (drop n (b ∷ bs)) (push_command m c))
      (λ c n. unmarshal_commands g (r + n) (drop n (b ∷ bs)) (push_command m c)) m size
      (unmarshal_command (b ∷ bs)) (unmarshal_command-TakesWithin (b ∷ bs))
      (λ c n lo hi.
        let d = length-drop n (b ∷ bs) in
        unmarshal_commands-fuel f g (r + n) (drop n (b ∷ bs)) (push_command m c) (omega arith)
          (omega arith))

-- The number of bytes that a success reports.
abbrev pub Reports : ℕ → Message × Result ℕ → Type 0
Reports size (m, ok n) = n ≡ size
Reports size (m, err e) = Unit

next_command-Reports :
    (k : Command → ℕ → Message × Result ℕ) (m : Message) (left size : ℕ) (r : Result (Command × ℕ))
    → TakesWithin left r
    → ((c : Command) (n : ℕ) → 1 ≤ n → n ≤ left → Reports size (k c n))
    → Reports size (next_command k m r)
next_command-Reports k m left size (ok (c, n)) (lo, hi) h = h c n lo hi
next_command-Reports k m left size (err e) w h = tt

pub unmarshal_commands-Reports :
    (f r : ℕ) (bs : Bytes) (m : Message)
    → length bs ≤ f
    → Reports (r + length bs) (unmarshal_commands f r bs m)
unfolding unmarshal_commands
unmarshal_commands-Reports f r [] m h = omega arith
unmarshal_commands-Reports zero r (b ∷ bs) m h = absurd (omega arith)
unmarshal_commands-Reports (suc f) r (b ∷ bs) m h =
    let size = length (b ∷ bs) in
    next_command-Reports (λ c n. unmarshal_commands f (r + n) (drop n (b ∷ bs)) (push_command m c))
      m size (r + size) (unmarshal_command (b ∷ bs)) (unmarshal_command-TakesWithin (b ∷ bs))
      (λ c n lo hi.
        let d = length-drop n (b ∷ bs) in
        let e : (r + n) + length (drop n (b ∷ bs)) ≡ r + size = omega arith in
        subst (λ z. Reports z (unmarshal_commands f (r + n) (drop n (b ∷ bs)) (push_command m c))) e
          (unmarshal_commands-Reports f (r + n) (drop n (b ∷ bs)) (push_command m c) (omega arith)))

-- The commands one behind the other.
abbrev pub command_bytes : List Command → Bytes
command_bytes [] = []
command_bytes (c ∷ ds) = marshal_command c ++ command_bytes ds

-- Well-formed commands, of which a display write is the last.
abbrev pub AreCommands : List Command → Type 0
AreCommands [] = Unit
AreCommands (c ∷ ds) = IsCommand c × Precedes c (command_bytes ds) × AreCommands ds

pub marshal_command-nonempty : (c : Command) → is_empty (marshal_command c) ≡ false
unfolding WriteToDisplay.marshal
marshal_command-nonempty (cs c) = refl
marshal_command-nonempty (wtd c) = refl
marshal_command-nonempty (rmf c) = refl

-- No command marshals to nothing, so the payload is always built.
pub marshal_commands-command_bytes :
    (ds : List Command) → marshal_commands ds ≡ ok (command_bytes ds)
unfolding marshal_commands
marshal_commands-command_bytes [] = refl
marshal_commands-command_bytes (c ∷ ds) =
    rw (marshal_command-nonempty c, marshal_commands-command_bytes ds) refl

unmarshal_commands_at :
    (f r : ℕ) (s : Bytes) (m : Message) (c : Command) (n : ℕ)
    → unmarshal_command s ≡ ok (c, n)
    → unmarshal_commands (suc f) r s m ≡ unmarshal_commands f (r + n) (drop n s) (push_command m c)
unfolding unmarshal_commands unmarshal_command
unmarshal_commands_at f r [] m c n e = ground arith
unmarshal_commands_at f r (b ∷ s) m c n e = rw e refl

pub nonempty-length : (bs : Bytes) → is_empty bs ≡ false → 1 ≤ length bs
nonempty-length [] h = ground arith
nonempty-length (b ∷ bs) h = omega arith

-- The loop takes the commands that were marshalled, and appends them to those that the message has.
pub unmarshal_commands-command_bytes :
    (ds : List Command) (f r : ℕ) (m : Message)
    → AreCommands ds
    → length (command_bytes ds) ≤ f
    → unmarshal_commands f r (command_bytes ds) m
      ≡ (record m { commands = m.commands ++ ds }, ok (r + length (command_bytes ds)))
unfolding unmarshal_commands
unmarshal_commands-command_bytes [] f r m h l =
    let e : r ≡ r + length (command_bytes []) = omega arith in
    ap₂ (λ os n. (record m { commands = os }, ok n)) (sym (append-nil m.commands)) e
unmarshal_commands-command_bytes (c ∷ ds) zero r m h l =
    let p = nonempty-length (marshal_command c) (marshal_command-nonempty c) in
    let a = length-append (marshal_command c) (command_bytes ds) in absurd (omega arith)
unmarshal_commands-command_bytes (c ∷ ds) (suc f) r m (h, p, hs) l =
    let bytes = marshal_command c in
    let rest = command_bytes ds in
    let a = length-append bytes rest in
    let q = nonempty-length bytes (marshal_command-nonempty c) in
    let e : (r + length bytes) + length rest ≡ r + length (bytes ++ rest) = omega arith in
    let o = append_assoc m.commands (c ∷ []) ds in
    unmarshal_commands_at f r (bytes ++ rest) m c (length bytes)
      (unmarshal_command-marshal_command c rest h p)
    ∙ ap (λ s. unmarshal_commands f (r + length bytes) s (push_command m c))
        (drop-length bytes rest)
    ∙ unmarshal_commands-command_bytes ds f (r + length bytes) (push_command m c) hs (omega arith)
    ∙ rw (e, o) refl
