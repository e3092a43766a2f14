-- ===== src/Decoder/Grammar/Payload.antt =====
-- The payload loop implements the grammar of commands.
use protocol_tn.Base.{
  ℕ, zero, suc, ◌+◌, ◌-◌, ◌/◌, ◌%◌, ◌≤◌, ◌<◌, true, false, List, [], ◌∷◌, ◌++◌, Bytes, All, be16,
  length, drop, leb, ◌==◌, ◌≡◌, refl, ap, ◌∙◌, ◌≢◌, arith, length-append, append_assoc, take-length,
  drop-length, drop_prefix,
}
use protocol_tn.Protocol.{esc, soh}
use protocol_tn.Decoder.Event.{on_write_error_code, Output, silent, calls, ◌then_also◌}
use protocol_tn.Decoder.Orders.Ends.{AtEsc}
use protocol_tn.Decoder.Payload.{
  Round, halt, next, esc_span, write_error_code, roll, wsf_walk, wsf_command, write_to_display,
  escape_command, soh_round, escape_round, payload_round, payload_loop,
}
use protocol_tn.Decoder.Grammar.{DisplayOrder, order_body, header_events, orders_bytes, AreOrders}
use protocol_tn.Decoder.Grammar.Orders.{soh_events_header, orders_grammar}
use protocol_tn.Decoder.Grammar.Commands.{
  StructuredField, HostCommand, fields_bytes, command_bytes, command_meaning, IsField, IsCommand,
  commands_bytes, AreCommands, commands_meaning, clear_unit, clear_unit_alternate,
  clear_format_table, error_code, roll_lines, read_input, read_mdt, read_now, read_screen,
  structured_fields, display, start_of_header,
}

orders_bytes-le :
    (os : List DisplayOrder) (rest : Bytes) → length rest ≤ length (orders_bytes os rest)
orders_bytes-le [] rest = omega arith
orders_bytes-le (o ∷ os) rest =
    omega (arith, length-append (order_body o) (orders_bytes os rest), orders_bytes-le os rest)

esc_span-append :
    (msg rest : Bytes) → All (λ b. b ≢ esc) msg → AtEsc rest → esc_span (msg ++ rest) ≡ length msg
unfolding esc_span
esc_span-append [] [] h a = refl
esc_span-append [] (b ∷ bs) h a = rw a
esc_span-append (b ∷ bs) rest (h, hs) a = ground (arith, esc_span-append bs rest hs a)

wsf_walk_stops : (f : ℕ) (rest : Bytes) → AtEsc rest → wsf_walk f rest ≡ ([], 0)
unfolding wsf_walk
wsf_walk_stops zero rest a = refl
wsf_walk_stops (suc f) [] a = refl
wsf_walk_stops (suc f) (b ∷ []) a = refl
wsf_walk_stops (suc f) (b ∷ c ∷ bs) a = ground arith

wsf_walk_step :
    (f hi lo : ℕ) (bs : Bytes)
    → hi ≢ esc
    → 2 ≤ be16 hi lo
    → be16 hi lo ≤ 2 + length bs
    → wsf_walk (suc f) (hi ∷ lo ∷ bs) ≡ (
      (wsf_walk f (drop (be16 hi lo) (hi ∷ lo ∷ bs))).0,
      be16 hi lo + (wsf_walk f (drop (be16 hi lo) (hi ∷ lo ∷ bs))).1,
    )
unfolding wsf_walk
wsf_walk_step f hi lo bs n p q = ground arith

wsf_walk_fields :
    (f : ℕ) (fs : List StructuredField) (rest : Bytes)
    → All IsField fs
    → AtEsc rest
    → length (fields_bytes fs ++ rest) ≤ f
    → wsf_walk f (fields_bytes fs ++ rest) ≡ ([], length (fields_bytes fs))
wsf_walk_fields f [] rest h a l = wsf_walk_stops f rest a
wsf_walk_fields zero ((hi, lo, body) ∷ fs) rest h a l = absurd (omega arith)
wsf_walk_fields (suc f) ((hi, lo, body) ∷ fs) rest ((n, e), hs) a l =
    rw (append_assoc body (fields_bytes fs) rest) (
      wsf_walk_step f hi lo (body ++ later) n (omega arith)
        (omega (arith, length-append body later))
      ∙ rw (cut, wsf_walk_fields f fs rest hs a (omega (arith, total, length-append body later)))
          (ground (arith, e, length-append body (fields_bytes fs))))
  where
    later : Bytes
    later = fields_bytes fs ++ rest

    total : length ((body ++ fields_bytes fs) ++ rest) ≡ length (body ++ later)
    total = ap length (append_assoc body (fields_bytes fs) rest)

    cut : drop (be16 hi lo) (hi ∷ lo ∷ (body ++ later)) ≡ later
    cut = drop_prefix (be16 hi lo) (hi ∷ lo ∷ body) later (omega arith)

-- The round of the loop at the head of a payload.
abbrev round_at : Bytes → Round
round_at [] = halt silent
round_at (ch ∷ rest) = payload_round ch rest

round_error_code :
    (msg rest : Bytes)
    → All (λ b. b ≢ esc) msg
    → AtEsc rest
    → write_error_code (msg ++ rest) ≡ next (calls (on_write_error_code msg ∷ [])) rest
unfolding write_error_code
round_error_code msg rest h a =
    rw (esc_span-append msg rest h a, take-length msg rest, drop-length msg rest)

up_bit : (c : ℕ) → c < 256 → (c / 128 % 2 == 1) ≡ leb 128 c
up_bit c h = ground arith

row_byte : (r : ℕ) → 1 ≤ r → r < 256 → (r + 255) % 256 ≡ r - 1
row_byte r h k = omega arith

round_roll :
    (c1 c2 top bot : ℕ) (rest : Bytes)
    → IsCommand (roll_lines c1 c2 top bot) rest
    → roll (c1 ∷ c2 ∷ top ∷ bot ∷ rest) ≡ next (command_meaning (roll_lines c1 c2 top bot)) rest
unfolding roll
round_roll c1 c2 top bot rest h = ground (arith, up_bit c1, row_byte top, row_byte bot)

round_fields :
    (fs : List StructuredField) (rest : Bytes)
    → All IsField fs
    → AtEsc rest
    → wsf_command (fields_bytes fs ++ rest) ≡ next (command_meaning (structured_fields fs)) rest
unfolding wsf_command
round_fields fs rest h a = rw (
  wsf_walk_fields (length (fields_bytes fs ++ rest)) fs rest h a (omega arith),
  take-length (fields_bytes fs) rest,
  drop-length (fields_bytes fs) rest,
)

round_display :
    (c1 c2 : ℕ) (os : List DisplayOrder) (rest : Bytes)
    → AreOrders os rest
    → AtEsc rest
    → write_to_display (c1 ∷ c2 ∷ orders_bytes os rest)
      ≡ next (command_meaning (display c1 c2 os)) rest
unfolding write_to_display
round_display c1 c2 os rest h a =
    let e = orders_grammar (length (orders_bytes os rest)) os rest h a (omega arith) in
    ground (arith, e)

round_header :
    (body rest : Bytes)
    → soh_round (soh ∷ length body ∷ (body ++ rest)) ≡ next (calls (header_events body)) rest
unfolding soh_round
round_header body rest =
    ground (arith, soh_events_header body rest, drop-length (soh ∷ length body ∷ body) rest)

round_command :
    (c : HostCommand) (rest : Bytes)
    → IsCommand c rest
    → round_at (command_bytes c rest) ≡ next (command_meaning c) rest
unfolding payload_round escape_round escape_command
round_command clear_unit rest h = refl
round_command clear_unit_alternate rest h = refl
round_command clear_format_table rest h = refl
round_command (error_code false msg) rest (h, a) = round_error_code msg rest h a
round_command (error_code true msg) rest (h, a) = round_error_code msg rest h a
round_command (roll_lines c1 c2 top bot) rest h = round_roll c1 c2 top bot rest h
round_command (read_input a b) rest h = refl
round_command (read_mdt a b) rest h = refl
round_command (read_now a b) rest h = refl
round_command (read_screen false a b) rest h = refl
round_command (read_screen true a b) rest h = refl
round_command (structured_fields fs) rest (h, a) = round_fields fs rest h a
round_command (display c1 c2 os) rest (h, a) = round_display c1 c2 os rest h a
round_command (start_of_header body) rest h = round_header body rest

payload_loop_step :
    (f : ℕ) (bs rest : Bytes) (out : Output)
    → round_at bs ≡ next out rest
    → payload_loop (suc f) bs ≡ out then_also payload_loop f rest
unfolding payload_loop
payload_loop_step f [] rest out h = cc
payload_loop_step f (ch ∷ bs) rest out h = rw h

pub command_bytes-lt :
    (c : HostCommand) (rest : Bytes) → length rest < length (command_bytes c rest)
command_bytes-lt (error_code false msg) rest = omega (arith, length-append msg rest)
command_bytes-lt (error_code true msg) rest = omega (arith, length-append msg rest)
command_bytes-lt (structured_fields fs) rest = omega (arith, length-append (fields_bytes fs) rest)
command_bytes-lt (display c1 c2 os) rest = omega (arith, orders_bytes-le os rest)
command_bytes-lt (start_of_header body) rest = omega (arith, length-append body rest)
command_bytes-lt (read_screen false a b) rest = omega arith
command_bytes-lt (read_screen true a b) rest = omega arith
command_bytes-lt _ rest = omega arith

-- A payload of well-formed commands gives what the grammar says, with fuel for its length.
pub payload_loop_grammar :
    (f : ℕ) (cs : List HostCommand)
    → AreCommands cs
    → length (commands_bytes cs) ≤ f
    → payload_loop f (commands_bytes cs) ≡ commands_meaning cs
payload_loop_grammar zero [] h l = unfold payload_loop in refl
payload_loop_grammar (suc f) [] h l = unfold payload_loop in refl
payload_loop_grammar zero (c ∷ cs) h l =
    absurd (omega (arith, command_bytes-lt c (commands_bytes cs)))
payload_loop_grammar (suc f) (c ∷ cs) (h, hs) l =
    payload_loop_step f (command_bytes c (commands_bytes cs)) (commands_bytes cs)
      (command_meaning c) (round_command c (commands_bytes cs) h)
    ∙ rw (payload_loop_grammar f cs hs (omega (arith, command_bytes-lt c (commands_bytes cs))))
