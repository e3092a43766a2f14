-- ===== src/Handler/Receive/Loop.antt =====
-- The loop of processTelnetData: each round takes a byte at least, and depends on no byte behind
-- those that it takes.
use protocol_tn.Base.{
  ℕ, zero, suc, ◌≤◌, ◌<◌, [], ◌∷◌, ◌++◌, Bytes, length, ◌≡◌, refl, sym, ◌∙◌, inl, inr, ◌⊎◌, arith,
}
use protocol_tn.Handler.State.{World}
use protocol_tn.Handler.Receive.{
  Receiver, Round, stop, go, option_round, iac_round, receive_round, go_on, receive_loop,
}

-- What a round leaves, with `more` behind the bytes.
abbrev pub extend : Round → Bytes → Round
extend stop more = stop
extend (go r rest) more = go r (rest ++ more)

abbrev pub Goes : Round → Type 0
Goes stop = ⊥
Goes (go r rest) = Unit

abbrev pub LeavesLess : ℕ → Round → Type 0
LeavesLess n stop = Unit
LeavesLess n (go r rest) = length rest < n

option_round-append :
    (cmd : ℕ) (bs more : Bytes) (r : Receiver)
    → Goes (option_round cmd bs r)
    → option_round cmd (bs ++ more) r ≡ extend (option_round cmd bs r) more
unfolding option_round
option_round-append cmd [] more r g = absurd g
option_round-append cmd (opt ∷ bs) more r g = refl

iac_round-append :
    (w : World) (bs more : Bytes) (r : Receiver)
    → Goes (iac_round w bs r)
    → iac_round w (bs ++ more) r ≡ extend (iac_round w bs r) more
unfolding iac_round
iac_round-append w [] more r g = absurd g
iac_round-append w (b ∷ bs) more r g = ground (arith, option_round-append b bs more r)

pub receive_round-append :
    (w : World) (bs more : Bytes) (r : Receiver)
    → Goes (receive_round w bs r)
    → receive_round w (bs ++ more) r ≡ extend (receive_round w bs r) more
unfolding receive_round
receive_round-append w [] more r g = absurd g
receive_round-append w (b ∷ bs) more r g = ground (arith, iac_round-append w bs more r)

option_round-lt :
    (cmd : ℕ) (bs : Bytes) (r : Receiver) → LeavesLess (suc (length bs)) (option_round cmd bs r)
unfolding option_round
option_round-lt cmd [] r = tt
option_round-lt cmd (b ∷ bs) r = omega arith

iac_round-lt :
    (w : World) (bs : Bytes) (r : Receiver) → LeavesLess (suc (length bs)) (iac_round w bs r)
unfolding iac_round
iac_round-lt w [] r = tt
iac_round-lt w (b ∷ bs) r = ground (arith, option_round-lt b bs r)

pub receive_round-lt :
    (w : World) (bs : Bytes) (r : Receiver) → LeavesLess (length bs) (receive_round w bs r)
unfolding receive_round
receive_round-lt w [] r = tt
receive_round-lt w (b ∷ bs) r = ground (arith, iac_round-lt w bs r)

go_on-ext :
    (d : Round) (n : ℕ) (k l : Bytes → Receiver → Receiver × Bytes) (here : Receiver × Bytes)
    → LeavesLess n d
    → ((bs : Bytes) (r : Receiver) → length bs < n → k bs r ≡ l bs r)
    → go_on d k here ≡ go_on d l here
go_on-ext stop n k l here h e = refl
go_on-ext (go r rest) n k l here h e = e rest r h

stopped :
    (w : World) (g : ℕ) (r : Receiver)
    → (r, []) ≡ go_on (receive_round w [] r) (receive_loop w g) (r, [])
unfolding receive_round
stopped w g r = refl

-- The receive loop ends by itself: with any two amounts of fuel that are at least the length of the
-- buffer it gives the same handler, the same data and the same bytes left.
pub receive_loop_fuel :
    (w : World) (f g : ℕ) (bs : Bytes) (r : Receiver)
    → length bs ≤ f
    → length bs ≤ g
    → receive_loop w f bs r ≡ receive_loop w g bs r
unfolding receive_loop
receive_loop_fuel w zero zero bs r p q = refl
receive_loop_fuel w zero (suc g) [] r p q = stopped w g r
receive_loop_fuel w zero (suc g) (b ∷ bs) r p q = absurd (omega arith)
receive_loop_fuel w (suc f) zero [] r p q = sym (stopped w f r)
receive_loop_fuel w (suc f) zero (b ∷ bs) r p q = absurd (omega arith)
receive_loop_fuel w (suc f) (suc g) bs r p q =
    go_on-ext (receive_round w bs r) (length bs) (receive_loop w f) (receive_loop w g) (r, bs)
      (receive_round-lt w bs r) (λ cs s h. receive_loop_fuel w f g cs s (omega arith) (omega arith))

-- The loop with fuel for all its bytes.
unfoldable pub received : World → Bytes → Receiver → Receiver × Bytes
received w bs r = receive_loop w (length bs) bs r

received_unfold :
    (w : World) (bs : Bytes) (r : Receiver)
    → received w bs r ≡ receive_loop w (suc (length bs)) bs r
unfolding received
received_unfold w bs r =
    receive_loop_fuel w (length bs) (suc (length bs)) bs r (omega arith) (omega arith)

pub received_stop :
    (w : World) (bs : Bytes) (r : Receiver)
    → receive_round w bs r ≡ stop
    → received w bs r ≡ (r, bs)
unfolding receive_loop
received_stop w bs r h = rw (received_unfold w bs r, h)

receive_loop_go :
    (w : World) (f : ℕ) (bs rest : Bytes) (r s : Receiver)
    → receive_round w bs r ≡ go s rest
    → receive_loop w (suc f) bs r ≡ receive_loop w f rest s
unfolding receive_loop
receive_loop_go w f bs rest r s h = rw h

pub go-lt :
    (w : World) (bs rest : Bytes) (r s : Receiver)
    → receive_round w bs r ≡ go s rest
    → length rest < length bs
go-lt w bs rest r s h = rw h at (receive_round-lt w bs r)

received_enough :
    (w : World) (f : ℕ) (bs : Bytes) (r : Receiver)
    → length bs ≤ f
    → receive_loop w f bs r ≡ received w bs r
unfolding received
received_enough w f bs r h = receive_loop_fuel w f (length bs) bs r h (omega arith)

pub received_go :
    (w : World) (bs rest : Bytes) (r s : Receiver)
    → receive_round w bs r ≡ go s rest
    → received w bs r ≡ received w rest s
received_go w bs rest r s h =
    received_unfold w bs r
    ∙ receive_loop_go w (length bs) bs rest r s h
    ∙ received_enough w (length bs) rest s (omega (arith, go-lt w bs rest r s h))

pub Round-cases : (d : Round) → (d ≡ stop) ⊎ ((s : Receiver) × (rest : Bytes) × (d ≡ go s rest))
Round-cases stop = inl refl
Round-cases (go s rest) = inr (s, rest, refl)

received-append_fuel :
    (f : ℕ) (w : World) (bs more : Bytes) (r : Receiver)
    → length bs ≤ f
    → received w (bs ++ more) r ≡ received w ((received w bs r).1 ++ more) (received w bs r).0
received-append_fuel zero w bs more r l = elim (Round-cases (receive_round w bs r)) [
  | inl h ↦ rw (received_stop w bs r h)
  | inr (s, rest, h) ↦ absurd (omega (arith, go-lt w bs rest r s h))
]
received-append_fuel (suc f) w bs more r l = elim (Round-cases (receive_round w bs r)) [
  | inl h ↦ rw (received_stop w bs r h)
  | inr (s, rest, h) ↦ rw (received_go w bs rest r s h) (
      received_go w (bs ++ more) (rest ++ more) r s
        (rw h at (receive_round-append w bs more r (rw h tt)))
      ∙ received-append_fuel f w rest more s (omega (arith, go-lt w bs rest r s h)))
]

-- More bytes behind the buffer go on where the loop stopped.
pub received-append :
    (w : World) (bs more : Bytes) (r : Receiver)
    → received w (bs ++ more) r ≡ received w ((received w bs r).1 ++ more) (received w bs r).0
received-append w bs more r = received-append_fuel (length bs) w bs more r (omega arith)
