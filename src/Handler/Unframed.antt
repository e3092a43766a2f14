-- ===== src/Handler/Unframed.antt =====
-- A protocol handler whose handshake is over and that has not agreed on END-OF-RECORD: processTelnetData
-- hands the data of a read over at its end, and keeps a half command for the next.
pub mod Tokens
pub mod Read
use protocol_tn.Base.{
  ℕ, zero, suc, ◌+◌, ◌-◌, ◌*◌, ◌/◌, ◌%◌, ◌^◌, ◌≤◌, ◌<◌, min, Bool, true, false, not, ◌&&◌, ◌||◌,
  Option, none, some, List, [], ◌∷◌, ◌++◌, map, Bytes, IsByte, IsBytes, All, All-drop, be16,
  is_empty, length, take, drop, get_or, set, replicate, ltb, leb, ◌==◌, if◌then◌else◌, ◌≡◌, refl,
  sym, ap, ap₂, ◌∙◌, ◌≢◌, inl, inr, ◌⊎◌, arith, Bool-cases, ==_iff, length-append, length-take,
  length-drop, length-replicate, take_append, drop_append, get_or_append, append-nil, append_assoc,
  take-length, drop-length, take_prefix, drop_prefix, subst, take-append-drop, tests, ltb→lt,
  ltb→ge, lt→ltb, ge→ltb,
}
use protocol_tn.Telnet.Command.{iac, is_standalone_telnet_command}
use protocol_tn.Decoder.Stream.Records.{concat}
use protocol_tn.Handler.State.{Handler, World, Event, on_data_received}
use protocol_tn.Handler.Receive.{
  Receiver, stop, go, append_data, is_unescaped, standalone, iac_round, receive_round, hand_over,
  process_telnet_data,
}
use protocol_tn.Handler.Receive.Loop.{received, received_stop, received_go}
use protocol_tn.Handler.Receive.Framed.{start}
use protocol_tn.Handler.RoundTrip.{nothing_round, plain_round, doubled_round}
use protocol_tn.Session.{process_reads}
use protocol_tn.Handler.Unframed.Tokens.{
  Token, byte, command, IsToken, token_bytes, encode, bytes_of, IsUnframed,
}
use protocol_tn.Handler.Unframed.Read.{IsHalf, Split, split}

-- What an application hears of the handler: the data byte by byte among the other events.
abbrev pub single : ℕ → Event
single b = on_data_received (b ∷ [])

abbrev pub singles : Event → List Event
singles (on_data_received bs) = map single bs
singles e = e ∷ []

abbrev pub spread : List Event → List Event
spread [] = []
spread (e ∷ es) = singles e ++ spread es

abbrev pub heard : Handler → Handler
heard h = record h { calls = spread h.calls }

-- With the data `d`, and the bytes `left` of a half command.
abbrev pub hears : Bytes → Bytes → Handler → Handler
hears d left h = record h { calls = h.calls ++ map single d; receive_buffer = left }

spread-append : (es fs : List Event) → spread (es ++ fs) ≡ spread es ++ spread fs
spread-append [] fs = refl
spread-append (e ∷ es) fs = rw (spread-append es fs, append_assoc)

map-append : (xs ys : Bytes) → map single (xs ++ ys) ≡ map single xs ++ map single ys
map-append [] ys = refl
map-append (x ∷ xs) ys = ap (◌∷◌ (single x)) (map-append xs ys)

if_true : (b : Bool) (x y : Handler) → b ≡ true → (if b then x else y) ≡ x
if_true b x y e = rw e refl

heard-hand_over :
    (d left : Bytes) (h : Handler)
    → h.handshake_complete ≡ true
    → heard (hand_over d (record h { receive_buffer = left })) ≡ hears d left (heard h)
unfolding hand_over
heard-hand_over [] left h c =
    λ i. record h { calls = sym (append-nil (spread h.calls)) i; receive_buffer = left }
heard-hand_over (b ∷ d) left h c =
    let shown : spread (h.calls ++ (on_data_received (b ∷ d) ∷ []))
        ≡ spread h.calls ++ map single (b ∷ d) =
      spread-append h.calls (on_data_received (b ∷ d) ∷ [])
      ∙ ap (◌++◌ (spread h.calls)) (append-nil (map single (b ∷ d))) in
    ap heard (if_true h.handshake_complete _ _ c)
    ∙ (λ i. record h { calls = shown i; receive_buffer = left })

process_split :
    (w : World) (ts : List Token) (x rest : Bytes) (h : Handler)
    → (s : Split w ts (h.receive_buffer ++ x) rest (start h))
    → process_telnet_data w x h ≡ hand_over s.gained (record h { receive_buffer = s.left })
unfolding process_telnet_data received
process_split w ts x rest h s =
    ap
      (λ (d : Receiver × Bytes).
        hand_over d.0.processed (record d.0.handler { receive_buffer = d.1 }))
      s.round

hears-hears :
    (c d : Bytes) (left more : Bytes) (h : Handler)
    → hears d more (hears c left h) ≡ hears (c ++ d) more h
hears-hears c d left more h = λ i. record h {
  calls =
      (append_assoc h.calls (map single c) (map single d)
          ∙ ap (◌++◌ h.calls) (sym (map-append c d)))
        i;
  receive_buffer = more;
}

hand_over-IsUnframed :
    (d left : Bytes) (h : Handler)
    → IsUnframed h
    → IsUnframed (hand_over d (record h { receive_buffer = left }))
unfolding hand_over
hand_over-IsUnframed d left h v = ground arith

hand_over-receive_buffer :
    (d left : Bytes) (h : Handler)
    → IsUnframed h
    → (hand_over d (record h { receive_buffer = left })).receive_buffer ≡ left
unfolding hand_over
hand_over-receive_buffer d left h v = ground (arith, v.complete)

-- No stream ends in half of a command.
encode_end :
    (ts : List Token) (bs : Bytes) → IsHalf bs → bs ≡ encode ts → (bs ≡ []) × (bytes_of ts ≡ [])
encode_end [] bs h e = (e, refl)
encode_end (byte b ∷ ts) bs h e = absurd (ground (arith, h, ap length e, ap (λ l. get_or l 0 0) e))
encode_end (command n ∷ ts) bs (inl h) e = absurd (omega (arith, ap length (sym h ∙ e)))
encode_end (command n ∷ ts) bs (inr h) e = absurd (omega (arith, ap length (sym h ∙ e)))

-- However the socket cuts a stream of data and commands into reads, a handler whose handshake is
-- complete, that has not agreed on END-OF-RECORD and is in no subnegotiation, hands over just the data
-- of the stream that begins with what its buffer holds, in order. Its state is otherwise unchanged, and
-- its buffer is empty at the end.
pub process_reads-encode :
    (w : World) (reads : List Bytes) (ts : List Token) (h : Handler)
    → IsUnframed h
    → IsHalf h.receive_buffer
    → All IsToken ts
    → h.receive_buffer ++ concat reads ≡ encode ts
    → heard (process_reads w h reads) ≡ hears (bytes_of ts) [] (heard h)
unfolding process_reads
process_reads-encode w [] ts h v half a e =
    let (empty, no_data) =
      encode_end ts h.receive_buffer half (sym (append-nil h.receive_buffer) ∙ e) in
    λ i. record h {
      calls =
          (sym (append-nil (spread h.calls))
              ∙ ap (λ d. spread h.calls ++ map single d) (sym no_data))
            i;
      receive_buffer = empty i;
    }
process_reads-encode w (x ∷ reads) ts h v half a e =
    let begun : IsUnframed (start h).handler = record {
      complete = v.complete;
      no_eor = v.no_eor;
      no_subnegotiation = v.no_subnegotiation;
    } in
    let s : Split w ts (h.receive_buffer ++ x) (concat reads) (start h) =
      split w ts (h.receive_buffer ++ x) (concat reads) (start h) begun a
        (append_assoc h.receive_buffer x (concat reads) ∙ e) in
    let left = hand_over-receive_buffer s.gained s.left h v in
    let next = hand_over s.gained (record h { receive_buffer = s.left }) in
    ap (λ g. heard (process_reads w g reads)) (process_split w ts x (concat reads) h s)
    ∙ process_reads-encode w reads s.later next (hand_over-IsUnframed s.gained s.left h v)
        (subst IsHalf (sym left) s.half) s.tokens (rw left s.all_bytes)
    ∙ ap (hears (bytes_of s.later) []) (heard-hand_over s.gained s.left h v.complete)
    ∙ hears-hears s.gained (bytes_of s.later) s.left [] (heard h)
    ∙ ap (λ d. hears d [] (heard h)) (sym s.all_data)
