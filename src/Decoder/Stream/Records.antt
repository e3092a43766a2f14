-- ===== src/Decoder/Stream/Records.antt =====
-- Decoder::parseData over a stream of whole GDS records, and what it keeps between two reads.
use protocol_tn.Base.{
  ℕ, zero, suc, ◌≤◌, ◌<◌, List, [], ◌∷◌, ◌++◌, Bytes, All, length, ◌≡◌, refl, inl, inr, arith,
  length-append, get_or_append, append-nil, append_assoc, take-length, drop-length,
}
use protocol_tn.Decoder.Event.{Event}
use protocol_tn.Decoder.Stream.{wait, whole, frame, record_events, Decoder, parse_data}
use protocol_tn.Decoder.Stream.Framing.{announced, after, after-lt}
use protocol_tn.Decoder.Stream.Chunks.{
  parsed, parsed_wait, parsed_cut, parse_data-parsed, parse_data-append, Frame-cases,
}

-- A byte list that a GDS length field describes: its first two bytes say how long it is.
pub record IsRecord (rec : Bytes) : Type 0 where
  pub long_enough : 6 ≤ length rec
  pub short_enough : length rec ≤ 65535
  pub announces : announced rec ≡ length rec

abbrev pub concat : List Bytes → Bytes
concat [] = []
concat (x ∷ xs) = x ++ concat xs

-- The reads of a stream, one after the other.
unfoldable pub parse_reads : Decoder → List Bytes → Decoder
parse_reads d [] = d
parse_reads d (x ∷ xs) = parse_reads (parse_data d x) xs

abbrev pub all_events : List Bytes → List Event
all_events [] = []
all_events (rec ∷ recs) = record_events rec ++ all_events recs

frame_record : (rec more : Bytes) → IsRecord rec → frame (rec ++ more) ≡ whole rec more
unfolding frame
frame_record rec more r = ground (
  arith,
  length-append rec more,
  get_or_append 0 rec more 0,
  get_or_append 1 rec more 0,
  take-length rec more,
  drop-length rec more,
)

parsed_record :
    (rec more : Bytes)
    → IsRecord rec
    → parsed (rec ++ more) ≡ (record_events rec ++ (parsed more).0, (parsed more).1)
parsed_record rec more r =
    let e = frame_record rec more r in rw e at (parsed_cut (rec ++ more) (λ w. cc))

parsed_records :
    (recs : List Bytes) → All IsRecord recs → parsed (concat recs) ≡ (all_events recs, [])
parsed_records [] h = parsed_wait [] (unfold frame in refl)
parsed_records (rec ∷ recs) (r, rs) = rw (parsed_record rec (concat recs) r, parsed_records recs rs)

parse_reads-concat :
    (d : Decoder) (x : Bytes) (reads : List Bytes)
    → parse_reads (parse_data d x) reads ≡ parse_data d (x ++ concat reads)
unfolding parse_reads
parse_reads-concat d x [] = rw append-nil
parse_reads-concat d x (y ∷ ys) =
    rw (parse_data-append d x y, parse_reads-concat d (x ++ y) ys, append_assoc)

-- Whatever the reads are that a stream of whole records is cut into, a decoder with an empty buffer
-- makes the callbacks of each record in order, and is left with an empty buffer.
pub parse_reads_records :
    (d : Decoder) (recs : List Bytes) (x : Bytes) (reads : List Bytes)
    → d.buffer ≡ []
    → All IsRecord recs
    → concat (x ∷ reads) ≡ concat recs
    → parse_reads d (x ∷ reads) ≡ record d { calls = d.calls ++ all_events recs }
unfolding parse_reads
parse_reads_records d recs x reads b h e =
    rw (parse_reads-concat d x reads, e, parse_data-parsed, b, parsed_records recs h)

frame-wait-lt : (buf : Bytes) → frame buf ≡ wait → length buf < 65535
unfolding frame
frame-wait-lt buf w = ground arith

parsed_waits : (f : ℕ) (buf : Bytes) → length buf ≤ f → frame (parsed buf).1 ≡ wait
parsed_waits zero buf h = elim (Frame-cases (frame buf)) [
  | inl w ↦ rw (parsed_wait buf w) w
  | inr c ↦ absurd (omega (arith, after-lt buf c))
]
parsed_waits (suc f) buf h = elim (Frame-cases (frame buf)) [
  | inl w ↦ rw (parsed_wait buf w) w
  | inr c ↦
      rw (parsed_cut buf c) (parsed_waits f (after (frame buf) buf) (omega (arith, after-lt buf c)))
]

-- After any read no whole record and no byte to be skipped is left in the buffer, and it holds fewer
-- than 65535 bytes.
pub parse_data_waits :
    (d : Decoder) (input : Bytes)
    → (frame (parse_data d input).buffer ≡ wait) × (length (parse_data d input).buffer < 65535)
parse_data_waits d input = rw (parse_data-parsed d input) (w, frame-wait-lt _ w)
  where
    w : frame (parsed (d.buffer ++ input)).1 ≡ wait
    w = parsed_waits (length (d.buffer ++ input)) (d.buffer ++ input) (omega arith)
