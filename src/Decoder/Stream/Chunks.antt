-- ===== src/Decoder/Stream/Chunks.antt =====
-- The loop of Decoder::parseData over a stream that arrives in pieces.
use protocol_tn.Base.{
  ℕ, zero, suc, ◌≤◌, List, [], ◌++◌, Bytes, length, ◌≡◌, refl, sym, ◌∙◌, inl, inr, ◌⊎◌, arith,
  append_assoc,
}
use protocol_tn.Decoder.Event.{Event}
use protocol_tn.Decoder.Stream.{
  Frame, wait, skip, whole, frame, record_events, parse_loop, Decoder, parse_data,
}
use protocol_tn.Decoder.Stream.Framing.{after, extend, frame-append, after-lt}

-- The callbacks of one cut.
abbrev pub frame_events : Frame → List Event
frame_events wait = []
frame_events (skip rest) = []
frame_events (whole rec rest) = record_events rec

-- The loop with fuel for the whole buffer.
unfoldable pub parsed : Bytes → List Event × Bytes
parsed buf = parse_loop (length buf) buf

-- Fuel beyond the length of the buffer changes nothing.
pub parse_loop_fuel :
    (f g : ℕ) (buf : Bytes) → length buf ≤ f → length buf ≤ g → parse_loop f buf ≡ parse_loop g buf
unfolding parse_loop
parse_loop_fuel zero zero buf p q = refl
parse_loop_fuel zero (suc g) buf p q = ground (arith, after-lt buf)
parse_loop_fuel (suc f) zero buf p q = ground (arith, after-lt buf)
parse_loop_fuel (suc f) (suc g) buf p q =
    ground (arith, after-lt buf, parse_loop_fuel f g (after (frame buf) buf))

pub Frame-cases : (fr : Frame) → (fr ≡ wait) ⊎ (fr ≡ wait → ⊥)
Frame-cases wait = inl refl
Frame-cases (skip rest) = inr (λ e. cc)
Frame-cases (whole rec rest) = inr (λ e. cc)

pub parsed_wait : (buf : Bytes) → frame buf ≡ wait → parsed buf ≡ ([], buf)
unfolding parsed parse_loop
parsed_wait buf h =
    parse_loop_fuel (length buf) (suc (length buf)) buf (omega arith) (omega arith) ∙ ground arith

-- What follows a cut is parsed as if it stood alone.
pub parsed_cut :
    (buf : Bytes)
    → (frame buf ≡ wait → ⊥)
    → parsed buf ≡ (
      frame_events (frame buf) ++ (parsed (after (frame buf) buf)).0,
      (parsed (after (frame buf) buf)).1,
    )
unfolding parsed parse_loop
parsed_cut buf h =
    parse_loop_fuel (length buf) (suc (length buf)) buf (omega arith) (omega arith)
    ∙ ground (
      arith,
      after-lt buf,
      parse_loop_fuel (length buf) (length (after (frame buf) buf)) (after (frame buf) buf),
    )

after-extend :
    (fr : Frame) (buf more : Bytes)
    → (fr ≡ wait → ⊥)
    → after (extend fr more) (buf ++ more) ≡ after fr buf ++ more
after-extend wait buf more h = absurd (h refl)
after-extend (skip rest) buf more h = refl
after-extend (whole rec rest) buf more h = refl

frame_events-extend : (fr : Frame) (more : Bytes) → frame_events (extend fr more) ≡ frame_events fr
frame_events-extend wait more = refl
frame_events-extend (skip rest) more = refl
frame_events-extend (whole rec rest) more = refl

extend-wait : (fr : Frame) (more : Bytes) → (fr ≡ wait → ⊥) → extend fr more ≡ wait → ⊥
extend-wait wait more h = h
extend-wait (skip rest) more h = λ e. cc
extend-wait (whole rec rest) more h = λ e. cc

parsed_cut-append :
    (buf more : Bytes)
    → (frame buf ≡ wait → ⊥)
    → parsed (buf ++ more) ≡ (
      frame_events (frame buf) ++ (parsed (after (frame buf) buf ++ more)).0,
      (parsed (after (frame buf) buf ++ more)).1,
    )
parsed_cut-append buf more h =
    let e = frame-append buf more h in
    let c = parsed_cut (buf ++ more) (λ w. extend-wait (frame buf) more h (sym e ∙ w)) in
    rw (e, after-extend (frame buf) buf more h, frame_events-extend (frame buf) more) at c

parsed-append_fuel :
    (f : ℕ) (buf more : Bytes)
    → length buf ≤ f
    → parsed (buf ++ more)
      ≡ ((parsed buf).0 ++ (parsed ((parsed buf).1 ++ more)).0, (parsed ((parsed buf).1 ++ more)).1)
parsed-append_fuel zero buf more h = elim (Frame-cases (frame buf)) [
  | inl w ↦ rw (parsed_wait buf w)
  | inr c ↦ absurd (omega (arith, after-lt buf c))
]
parsed-append_fuel (suc f) buf more h = elim (Frame-cases (frame buf)) [
  | inl w ↦ rw (parsed_wait buf w)
  | inr c ↦ rw (
    parsed_cut buf c,
    parsed_cut-append buf more c,
    parsed-append_fuel f (after (frame buf) buf) more (omega (arith, after-lt buf c)),
    append_assoc,
  )
]

-- The bytes behind a buffer are parsed with what the buffer leaves.
pub parsed-append :
    (buf more : Bytes)
    → parsed (buf ++ more)
      ≡ ((parsed buf).0 ++ (parsed ((parsed buf).1 ++ more)).0, (parsed ((parsed buf).1 ++ more)).1)
parsed-append buf more = parsed-append_fuel (length buf) buf more (omega arith)

pub parse_data-parsed :
    (d : Decoder) (input : Bytes)
    → parse_data d input ≡ record d {
      buffer = (parsed (d.buffer ++ input)).1;
      calls = d.calls ++ (parsed (d.buffer ++ input)).0;
    }
unfolding parse_data parsed
parse_data-parsed d input = refl

-- Two reads make the callbacks, and leave the decoder, of one read of all their bytes: how TCP cuts
-- the stream into reads cannot be observed.
pub parse_data-append :
    (d : Decoder) (a b : Bytes) → parse_data (parse_data d a) b ≡ parse_data d (a ++ b)
parse_data-append d a b =
    rw
      (
        parse_data-parsed (parse_data d a) b,
        parse_data-parsed d a,
        parse_data-parsed d (a ++ b),
        ← append_assoc,
        parsed-append (d.buffer ++ a) b,
      )
      (rw append_assoc)
