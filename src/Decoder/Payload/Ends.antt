-- ===== src/Decoder/Payload/Ends.antt =====
-- The loop over a payload ends: each round takes a byte at least, so that fuel beyond the length of
-- the payload changes nothing.
use protocol_tn.Base.{
  ℕ, zero, suc, ◌+◌, ◌≤◌, [], ◌∷◌, Bytes, length, drop, ◌≡◌, refl, ap, arith, length-drop,
}
use protocol_tn.Decoder.Event.{Output, ◌then_also◌}
use protocol_tn.Decoder.Orders.Ends.{orders-AtEsc}
use protocol_tn.Decoder.Payload.{
  Round, halt, next, esc_span, write_error_code, roll, wsf_walk, wsf_command, write_to_display,
  unknown_command, escape_command, soh_round, escape_round, payload_round, go_on, payload_loop,
}

-- The bytes left behind a round are at most `n`.
abbrev pub LeavesAtMost : ℕ → Round → Type 0
LeavesAtMost n (halt out) = Unit
LeavesAtMost n (next out bs) = length bs ≤ n

write_to_display-le : (bs : Bytes) → LeavesAtMost (length bs) (write_to_display bs)
unfolding write_to_display
write_to_display-le bs =
    ground (arith, length-drop 2 bs, orders-AtEsc (length (drop 2 bs)) (drop 2 bs))

roll-le : (bs : Bytes) → LeavesAtMost (length bs) (roll bs)
unfolding roll
roll-le bs = ground (arith, length-drop 2 bs, length-drop 4 bs)

escape_command-le : (cc : ℕ) (bs : Bytes) → LeavesAtMost (length bs) (escape_command cc bs)
unfolding escape_command write_error_code unknown_command wsf_command
escape_command-le cc bs = ground (
  arith,
  length-drop 2 bs,
  length-drop (esc_span bs) bs,
  length-drop (wsf_walk (length bs) bs).1 bs,
  roll-le bs,
  write_to_display-le bs,
)

pub payload_round-le : (ch : ℕ) (rest : Bytes) → LeavesAtMost (length rest) (payload_round ch rest)
unfolding payload_round soh_round escape_round
payload_round-le ch [] = ground arith
payload_round-le ch (b ∷ bs) =
    ground (arith, escape_command-le b bs, length-drop (2 + b) (ch ∷ b ∷ bs))

go_on-ext :
    (r : Round) (n : ℕ) (k l : Bytes → Output)
    → LeavesAtMost n r
    → ((bs : Bytes) → length bs ≤ n → k bs ≡ l bs)
    → go_on r k ≡ go_on r l
go_on-ext (halt out) n k l h e = refl
go_on-ext (next out bs) n k l h e = ap (λ (o : Output). out then_also o) (e bs h)

-- The payload loop ends by itself: any two amounts of fuel that are at least the length of the
-- payload give the same callbacks and the same display.
pub payload_loop_fuel :
    (f g : ℕ) (bs : Bytes) → length bs ≤ f → length bs ≤ g → payload_loop f bs ≡ payload_loop g bs
unfolding payload_loop
payload_loop_fuel zero zero bs p q = refl
payload_loop_fuel zero (suc g) [] p q = refl
payload_loop_fuel zero (suc g) (b ∷ bs) p q = absurd (omega arith)
payload_loop_fuel (suc f) zero [] p q = refl
payload_loop_fuel (suc f) zero (b ∷ bs) p q = absurd (omega arith)
payload_loop_fuel (suc f) (suc g) [] p q = refl
payload_loop_fuel (suc f) (suc g) (b ∷ bs) p q =
    go_on-ext (payload_round b bs) (length bs) (payload_loop f) (payload_loop g)
      (payload_round-le b bs) (λ cs h. payload_loop_fuel f g cs (omega arith) (omega arith))
