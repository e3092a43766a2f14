-- ===== src/Decoder/Grammar/Orders.antt =====
-- The decoder's loop over the orders of a Write To Display, against the grammar.
use protocol_tn.Base.{
  ℕ, zero, suc, ◌+◌, ◌/◌, ◌%◌, ◌≤◌, ◌<◌, false, List, [], ◌∷◌, ◌++◌, Bytes, All, be16, length, drop,
  get_or, ◌==◌, ◌≡◌, refl, ◌∙◌, inl, inr, ◌⊎◌, arith, length-append, get_or_append, append_assoc,
  take-length, drop-length,
}
use protocol_tn.Protocol.{esc, strpccmd_trigger, order_td, order_wdsf, order_sf, soh}
use protocol_tn.Decoder.Event.{shows, silent, ◌then_also◌}
use protocol_tn.Decoder.Orders.{
  soh_events, soh_order, td_order, wdsf_order, same_bytes, at_strpccmd, strpccmd_payload,
  command_span, fcw_span, sf_span, order_at, orders, copy,
}
use protocol_tn.Decoder.Orders.Ends.{AtEsc}
use protocol_tn.Decoder.Grammar.{
  DisplayOrder, text, address, to_address, transparent, structured, header, program_call,
  start_field, word_bytes, order_code, order_body, order_bytes, header_events, order_meaning,
  IsText, IsAttribute, EndsCommand, IsOrder, orders_bytes, AreOrders, orders_meaning,
}

-- The end of the payload, or a byte below 0x40.
abbrev Below40 : Bytes → Type 0
Below40 [] = Unit
Below40 (b ∷ bs) = b < 0x40

command_span_stops : (n : ℕ) (rest : Bytes) → Below40 rest → command_span n rest ≡ 0
unfolding command_span
command_span_stops zero rest h = refl
command_span_stops (suc n) [] h = refl
command_span_stops (suc n) (b ∷ bs) h = ground arith

command_span-append :
    (n : ℕ) (command rest : Bytes)
    → length command ≤ n
    → All (λ b. 0x40 ≤ b) command
    → (length command ≡ n) ⊎ Below40 rest
    → command_span n (command ++ rest) ≡ length command
unfolding command_span
command_span-append zero [] rest h a e = refl
command_span-append (suc n) [] rest h a (inl e) = absurd (omega arith)
command_span-append (suc n) [] rest h a (inr e) = command_span_stops (suc n) rest e
command_span-append zero (b ∷ bs) rest h a e = absurd (omega arith)
command_span-append (suc n) (b ∷ bs) rest h (a, more) e =
    ground (arith, command_span-append n bs rest)

ne→== : (a b : ℕ) → ¬ (a ≡ b) → (a == b) ≡ false
ne→== a b h = ground arith

fcw_span-append :
    (words : List (ℕ × ℕ)) (attr : ℕ) (rest : Bytes)
    → All (λ w. ¬ IsAttribute w.0) words
    → IsAttribute attr
    → fcw_span (word_bytes words ++ (attr ∷ rest)) ≡ length (word_bytes words)
unfolding fcw_span
fcw_span-append [] attr [] h a = refl
fcw_span-append [] attr (b ∷ bs) h a = rw a
fcw_span-append ((w, v) ∷ ws) attr rest (h, hs) a =
    rw (ne→== (w / 32 % 8) 1 h) (omega (arith, fcw_span-append ws attr rest hs a))

order_at_text : (b : ℕ) (bs : Bytes) → IsText b → order_at b (b ∷ bs) ≡ copy 1 (b ∷ bs)
unfolding order_at at_strpccmd
order_at_text b bs h = ground arith

order_at_address :
    (code row col : ℕ) (rest : Bytes)
    → IsOrder (address code row col) rest
    → order_at code (code ∷ row ∷ col ∷ rest) ≡ (order_meaning (address code row col), rest)
unfolding order_at
order_at_address code row col rest h = ground arith

order_at_to_address :
    (code row col b : ℕ) (rest : Bytes)
    → IsOrder (to_address code row col b) rest
    → order_at code (code ∷ row ∷ col ∷ b ∷ rest)
      ≡ (order_meaning (to_address code row col b), rest)
unfolding order_at
order_at_to_address code row col b rest h = ground arith

copy-append : (n : ℕ) (bs rest : Bytes) → n ≡ length bs → copy n (bs ++ rest) ≡ (shows bs, rest)
copy-append n bs rest h = rw (h, take-length bs rest, drop-length bs rest)

order_at_transparent :
    (body rest : Bytes)
    → order_at order_td (order_bytes (transparent body) ++ rest)
      ≡ (order_meaning (transparent body), rest)
unfolding order_at td_order
order_at_transparent body rest =
    ground
      (arith, copy-append (2 + length body) (order_bytes (transparent body)) rest (omega arith))

order_at_structured :
    (hi lo : ℕ) (body rest : Bytes)
    → be16 hi lo ≡ 2 + length body
    → order_at order_wdsf (order_wdsf ∷ hi ∷ lo ∷ (body ++ rest)) ≡ (silent, rest)
unfolding order_at wdsf_order
order_at_structured hi lo body rest h =
    let e : 1 + be16 hi lo ≡ length (order_wdsf ∷ hi ∷ lo ∷ body) = omega arith in
    let d : drop (1 + be16 hi lo) (order_wdsf ∷ hi ∷ lo ∷ (body ++ rest)) ≡ rest =
      rw e (drop-length (order_wdsf ∷ hi ∷ lo ∷ body) rest) in
    ground (arith, d)

get_or_body :
    (i : ℕ) (body rest : Bytes) → i < length body → get_or (body ++ rest) i 0 ≡ get_or body i 0
get_or_body i body rest h = get_or_append i body rest 0 h

get_or_past : (i : ℕ) (body : Bytes) → length body ≤ i → get_or body i 0 ≡ 0
get_or_past i [] h = refl
get_or_past zero (b ∷ bs) h = absurd (omega arith)
get_or_past (suc i) (b ∷ bs) h = get_or_past i bs (omega arith)

pub soh_events_header :
    (body rest : Bytes)
    → soh_events (length body) (soh ∷ length body ∷ (body ++ rest)) ≡ header_events body
soh_events_header body rest = ground (
  arith,
  get_or_body 3 body rest,
  get_or_body 4 body rest,
  get_or_body 5 body rest,
  get_or_body 6 body rest,
  get_or_past 4 body,
  get_or_past 5 body,
  get_or_past 6 body,
)

order_at_header :
    (body rest : Bytes)
    → order_at soh (soh ∷ length body ∷ (body ++ rest)) ≡ (order_meaning (header body), rest)
unfolding order_at soh_order
order_at_header body rest =
    ground (arith, soh_events_header body rest, drop-length (soh ∷ length body ∷ body) rest)

ends : (command rest : Bytes) → EndsCommand command rest → (length command ≡ 123) ⊎ Below40 rest
ends command [] e = inr tt
ends command (b ∷ bs) e = e

order_at_program_call :
    (flag : ℕ) (command rest : Bytes)
    → IsOrder (program_call flag command) rest
    → order_at strpccmd_trigger (order_bytes (program_call flag command) ++ rest)
      ≡ (order_meaning (program_call flag command), rest)
unfolding order_at at_strpccmd same_bytes strpccmd_payload
order_at_program_call flag command rest (f, l, a, e) = ground (
  arith,
  command_span-append 123 command rest l a (ends command rest e),
  take-length command rest,
  drop-length command rest,
)

sf_span_order :
    (w1 w2 : ℕ) (words : List (ℕ × ℕ)) (attr hi lo : ℕ) (rest : Bytes)
    → IsOrder (start_field w1 w2 words attr hi lo) rest
    → sf_span (order_sf ∷ w1 ∷ w2 ∷ (word_bytes words ++ (attr ∷ hi ∷ lo ∷ rest)))
      ≡ 6 + length (word_bytes words)
unfolding sf_span
sf_span_order w1 w2 words attr hi lo rest (h, a) = ground (
  arith,
  fcw_span-append words attr (hi ∷ lo ∷ rest) h a,
  length-append (word_bytes words) (attr ∷ hi ∷ lo ∷ rest),
)

order_at-start_field :
    (w1 w2 : ℕ) (words : List (ℕ × ℕ)) (attr hi lo : ℕ) (rest : Bytes)
    → IsOrder (start_field w1 w2 words attr hi lo) rest
    → order_at order_sf (order_bytes (start_field w1 w2 words attr hi lo) ++ rest)
      ≡ (order_meaning (start_field w1 w2 words attr hi lo), rest)
unfolding order_at at_strpccmd
order_at-start_field w1 w2 words attr hi lo rest h =
    let s = sf_span_order w1 w2 words attr hi lo rest h in
    rw (append_assoc (word_bytes words) (attr ∷ hi ∷ lo ∷ []) rest)
      (rw s (rw (append_assoc (word_bytes words) (attr ∷ hi ∷ lo ∷ []) rest) at copied))
  where
    copied :
        copy
          (6 + length (word_bytes words))
          (order_bytes (start_field w1 w2 words attr hi lo) ++ rest)
        ≡ (shows (order_bytes (start_field w1 w2 words attr hi lo)), rest)
    copied =
        copy-append _ (order_bytes (start_field w1 w2 words attr hi lo)) rest
          (omega (arith, length-append (word_bytes words) (attr ∷ hi ∷ lo ∷ [])))

-- One order of the grammar, with anything behind it, is one round of the loop.
order_at_order :
    (o : DisplayOrder) (rest : Bytes)
    → IsOrder o rest
    → order_at (order_code o) (order_bytes o ++ rest) ≡ (order_meaning o, rest)
order_at_order (text b) rest h = order_at_text b rest h
order_at_order (address code row col) rest h = order_at_address code row col rest h
order_at_order (to_address code row col b) rest h = order_at_to_address code row col b rest h
order_at_order (transparent body) rest h = order_at_transparent body rest
order_at_order (structured hi lo body) rest h = order_at_structured hi lo body rest h
order_at_order (header body) rest h = order_at_header body rest
order_at_order (program_call flag command) rest h = order_at_program_call flag command rest h
order_at_order (start_field w1 w2 words attr hi lo) rest h =
    order_at-start_field w1 w2 words attr hi lo rest h

order_code-ne-esc :
    (o : DisplayOrder) (rest : Bytes) → IsOrder o rest → (order_code o == esc) ≡ false
order_code-ne-esc (text b) rest h = ground arith
order_code-ne-esc (address code row col) rest h = ground arith
order_code-ne-esc (to_address code row col b) rest h = ground arith
order_code-ne-esc (transparent body) rest h = refl
order_code-ne-esc (structured hi lo body) rest h = refl
order_code-ne-esc (header body) rest h = refl
order_code-ne-esc (program_call flag command) rest h = refl
order_code-ne-esc (start_field w1 w2 words attr hi lo) rest h = refl

orders_at_end :
    (f : ℕ) (rest : Bytes) → AtEsc rest → length rest ≤ f → orders f rest ≡ (silent, rest)
unfolding orders
orders_at_end zero rest a h = refl
orders_at_end (suc f) [] a h = refl
orders_at_end (suc f) (b ∷ bs) a h = rw a

orders_step :
    (f ob : ℕ) (rest : Bytes)
    → (ob == esc) ≡ false
    → let round = order_at ob (ob ∷ rest) in
      orders (suc f) (ob ∷ rest) ≡ (round.0 then_also (orders f round.1).0, (orders f round.1).1)
unfolding orders
orders_step f ob rest h = rw (h, orders)

-- With fuel for all the bytes, orders that are well formed, in front of an ESC or the end of the
-- payload, give the callbacks and the display bytes that the grammar gives, and the loop stops
-- behind the last of them.
pub orders_grammar :
    (f : ℕ) (os : List DisplayOrder) (rest : Bytes)
    → AreOrders os rest
    → AtEsc rest
    → length (orders_bytes os rest) ≤ f
    → orders f (orders_bytes os rest) ≡ (orders_meaning os, rest)
orders_grammar f [] rest h a l = orders_at_end f rest a l
orders_grammar zero (o ∷ os) rest h a l = absurd (omega arith)
orders_grammar (suc f) (o ∷ os) rest (h, hs) a l =
    let rest' = orders_bytes os rest in
    orders_step f (order_code o) (order_body o ++ rest') (order_code-ne-esc o rest' h)
    ∙ rw (order_at_order o rest' h)
        (rw (orders_grammar f os rest hs a (omega (arith, length-append (order_body o) rest'))))
