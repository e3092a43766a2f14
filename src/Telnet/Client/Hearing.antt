-- ===== src/Telnet/Client/Hearing.antt =====
-- What an application hears of a Telnet client: the application data byte by byte among the other
-- callbacks, however the client cuts the data into calls.
use protocol_tn.Base.{
  ℕ, List, [], ◌∷◌, ◌++◌, map, Bytes, ◌==◌, if◌then◌else◌, inr, ◌⊎◌, ◌≡◌, refl, sym, ap, ◌∙◌, arith,
  append-nil, append_assoc,
}
use protocol_tn.Telnet.Command.{iac, se, sb, is_standalone_telnet_command}
use protocol_tn.Telnet.Client.{
  plain_data, command, negotiation_option, subnegotiation_option, subnegotiation_data,
  subnegotiation_command, Event, on_app_data, on_negotiation_command, on_subnegotiation,
  on_standalone_command, Client, call, flush_app_data, data_byte, command_byte,
  subnegotiation_command_byte, feed_byte, feed_bytes, feed,
}

abbrev pub single : ℕ → Event
single b = on_app_data (b ∷ [])

-- One callback, with application data cut into single bytes.
abbrev pub singles : Event → List Event
singles (on_app_data bs) = map single bs
singles e = e ∷ []

abbrev pub spread : List Event → List Event
spread [] = []
spread (e ∷ es) = singles e ++ spread es

-- The client as it is heard, with the data that still waits in its buffer.
abbrev pub heard : Client → Client
heard c = record c { app_buffer = []; calls = spread c.calls ++ map single c.app_buffer }

-- The client without a buffer for application data: each byte is handed over at once.
unfoldable pub hear : ℕ → Client → Client
hear b c = elim c.state [
  | plain_data ↦ if b == iac then record c { state = command } else call (single b) c
  | command ↦
      if b == iac
      then record (call (single 0xFF) c) { state = plain_data }
      else if b == sb
      then record c { state = subnegotiation_option }
      else if b == se
      then record c { state = plain_data }
      else if is_standalone_telnet_command b
      then record (call (on_standalone_command b) c) { state = plain_data }
      else record c { pending_cmd = b; state = negotiation_option }
  | negotiation_option ↦ record (call (on_negotiation_command c.pending_cmd b) c) {
    pending_opt = b;
    state = plain_data;
  }
  | subnegotiation_option ↦ record c { sb_opt = b; sb_buffer = []; state = subnegotiation_data }
  | subnegotiation_data ↦
      if b == iac
      then record c { state = subnegotiation_command }
      else record c { sb_buffer = c.sb_buffer ++ (b ∷ []) }
  | subnegotiation_command ↦
      if b == iac
      then record c { sb_buffer = c.sb_buffer ++ (0xFF ∷ []); state = subnegotiation_data }
      else if b == se
      then record (call (on_subnegotiation c.sb_opt c.sb_buffer) c) {
        sb_buffer = [];
        state = plain_data;
      }
      else record c { state = subnegotiation_data }
]

unfoldable pub hear_all : Bytes → Client → Client
hear_all [] c = c
hear_all (b ∷ bs) c = hear_all bs (hear b c)

spread-append : (es fs : List Event) → spread (es ++ fs) ≡ spread es ++ spread fs
spread-append [] fs = refl
spread-append (e ∷ es) fs = rw (spread-append es fs, append_assoc)

map-append : (xs ys : Bytes) → map single (xs ++ ys) ≡ map single xs ++ map single ys
map-append [] ys = refl
map-append (x ∷ xs) ys = ap (◌∷◌ (single x)) (map-append xs ys)

handed_over :
    (es : List Event) (bs : Bytes)
    → spread (es ++ (on_app_data bs ∷ [])) ++ [] ≡ spread es ++ map single bs
handed_over es bs =
    append-nil _
    ∙ spread-append es (on_app_data bs ∷ [])
    ∙ ap (◌++◌ (spread es)) (append-nil (map single bs))

-- Handing the buffer over is not heard.
heard-flush_app_data : (c : Client) → heard (flush_app_data c) ≡ heard c
unfolding flush_app_data
heard-flush_app_data c = ground (arith, handed_over c.calls c.app_buffer)

heard-data_byte :
    (b : ℕ) (c : Client) → c.state ≡ plain_data → heard (data_byte b c) ≡ hear b (heard c)
unfolding data_byte hear flush_app_data
heard-data_byte b c h = ground (
  arith,
  handed_over c.calls c.app_buffer,
  map-append c.app_buffer (b ∷ []),
  append_assoc (spread c.calls) (map single c.app_buffer) (single b ∷ []),
)

-- Outside State::Data nothing waits in the buffer.
unfoldable pub IsTidy : Client → Type 0
IsTidy c = (c.state ≡ plain_data) ⊎ (c.app_buffer ≡ [])

flush_app_data-app_buffer : (c : Client) → (flush_app_data c).app_buffer ≡ []
unfolding flush_app_data
flush_app_data-app_buffer c = refl

feed_byte-IsTidy : (b : ℕ) (c : Client) → IsTidy c → IsTidy (feed_byte b c)
unfolding IsTidy feed_byte data_byte command_byte subnegotiation_command_byte flush_app_data
feed_byte-IsTidy b c v = ground arith

-- A callback that is made with an empty buffer.
called :
    (es : List Event) (e : Event)
    → singles e ≡ e ∷ []
    → spread (es ++ (e ∷ [])) ++ [] ≡ (spread es ++ []) ++ (e ∷ [])
called es e h =
    append-nil _
    ∙ spread-append es (e ∷ [])
    ∙ ap (◌++◌ (spread es)) (append-nil (singles e) ∙ h)
    ∙ ap (λ xs. xs ++ (e ∷ [])) (sym (append-nil (spread es)))

heard-command_byte :
    (b : ℕ) (c : Client)
    → c.state ≡ command
    → c.app_buffer ≡ []
    → heard (command_byte b c) ≡ hear b (heard c)
unfolding command_byte hear
heard-command_byte b c h e =
    ground (arith, called c.calls (on_standalone_command b) refl, append-nil (spread c.calls))

heard-feed_byte : (b : ℕ) (c : Client) → IsTidy c → heard (feed_byte b c) ≡ hear b (heard c)
unfolding IsTidy feed_byte subnegotiation_command_byte hear
heard-feed_byte b c v = ground (
  arith,
  heard-data_byte b c,
  heard-command_byte b c,
  called c.calls (on_negotiation_command c.pending_cmd b) refl,
  called c.calls (on_subnegotiation c.sb_opt c.sb_buffer) refl,
  append-nil (spread c.calls),
)

heard-feed_bytes :
    (bs : Bytes) (c : Client) → IsTidy c → heard (feed_bytes bs c) ≡ hear_all bs (heard c)
unfolding feed_bytes hear_all
heard-feed_bytes [] c v = refl
heard-feed_bytes (b ∷ bs) c v =
    heard-feed_bytes bs (feed_byte b c) (feed_byte-IsTidy b c v)
    ∙ ap (hear_all bs) (heard-feed_byte b c v)

-- What an application hears of a client in which nothing waits outside State::Data is what the
-- client without a buffer makes: the same data byte by byte, the same other callbacks, in the same
-- order, and the same state behind them. It stays such a client.
pub heard-feed :
    (bs : Bytes) (c : Client)
    → IsTidy c
    → (heard (feed bs c) ≡ hear_all bs (heard c)) × IsTidy (feed bs c)
unfolding feed IsTidy
heard-feed bs c v = (
  heard-flush_app_data (feed_bytes bs c) ∙ heard-feed_bytes bs c v,
  inr (flush_app_data-app_buffer (feed_bytes bs c)),
)

pub hear_all-append : (a b : Bytes) (c : Client) → hear_all (a ++ b) c ≡ hear_all b (hear_all a c)
unfolding hear_all
hear_all-append [] b c = refl
hear_all-append (x ∷ a) b c = hear_all-append a b (hear x c)

-- Two reads are heard as one read of all their bytes, from a client in which nothing waits outside
-- State::Data.
pub feed-append :
    (a b : Bytes) (c : Client) → IsTidy c → heard (feed b (feed a c)) ≡ heard (feed (a ++ b) c)
feed-append a b c v =
    (heard-feed b (feed a c) (heard-feed a c v).1).0
    ∙ ap (hear_all b) (heard-feed a c v).0
    ∙ sym (hear_all-append a b (heard c))
    ∙ sym (heard-feed (a ++ b) c v).0
