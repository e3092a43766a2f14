-- ===== src/Decoder/Stream/Framing.antt =====
-- How Decoder::parseData cuts its buffer: one cut depends on the bytes of that cut alone, and each
-- takes a byte at least.
use protocol_tn.Base.{
  ℕ, ◌≤◌, ◌<◌, ◌++◌, Bytes, be16, length, get_or, ◌≡◌, arith, length-append, length-drop,
  take_append, drop_append, get_or_append,
}
use protocol_tn.Decoder.Stream.{Frame, wait, skip, whole, frame}

-- The length that the first two bytes announce.
abbrev pub announced : Bytes → ℕ
announced buf = be16 (get_or buf 0 0) (get_or buf 1 0)

-- The rest behind a cut.
abbrev pub after : Frame → Bytes → Bytes
after wait buf = buf
after (skip rest) buf = rest
after (whole rec rest) buf = rest

abbrev pub extend : Frame → Bytes → Frame
extend wait more = wait
extend (skip rest) more = skip (rest ++ more)
extend (whole rec rest) more = whole rec (rest ++ more)

announced-append : (buf more : Bytes) → 2 ≤ length buf → announced (buf ++ more) ≡ announced buf
announced-append buf more h =
    omega
      (arith, get_or_append 0 buf more 0 (omega arith), get_or_append 1 buf more 0 (omega arith))

-- A cut that is made is made alike when more bytes stand behind the buffer.
pub frame-append :
    (buf more : Bytes) → (frame buf ≡ wait → ⊥) → frame (buf ++ more) ≡ extend (frame buf) more
unfolding frame
frame-append buf more h = ground (
  arith,
  length-append buf more,
  announced-append buf more,
  take_append (announced buf) buf more,
  drop_append (announced buf) buf more,
  drop_append 1 buf more,
)

-- A cut takes a byte at least.
pub after-lt : (buf : Bytes) → (frame buf ≡ wait → ⊥) → length (after (frame buf) buf) < length buf
unfolding frame
after-lt buf h = ground (arith, length-drop (announced buf) buf, length-drop 1 buf)
