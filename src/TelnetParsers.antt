-- ===== src/TelnetParsers.antt =====
-- The repository has two Telnet parsers: processTelnetData of tn5250/client/protocol_handler.cpp, and
-- TelnetClient::feed of tn5250/telnet/client.cpp. Here both read the same stream.
use protocol_tn.Base.{
  List, [], ◌∷◌, ◌++◌, Bytes, All, ◌==◌, if◌then◌else◌, ◌≡◌, refl, sym, ap, ◌∙◌, inl, inr, arith,
  Bool-cases, append-nil, append_assoc,
}
use protocol_tn.Telnet.Command.{se}
use protocol_tn.Telnet.Client.{plain_data, Event, on_app_data, on_standalone_command, Client, feed}
use protocol_tn.Telnet.Client.Hearing.{
  single, heard, hear, hear_all, hear_all-append, IsTidy, heard-feed,
}
use protocol_tn.Decoder.Stream.Records.{concat}
use protocol_tn.Handler.State.{Handler, World}
use protocol_tn.Session.{process_reads}
use protocol_tn.Handler.Unframed.Tokens.{
  Token, byte, IsToken, encode, token_bytes, bytes_of, IsUnframed,
}
use protocol_tn.Handler.Unframed.{hears, process_reads-encode}
use protocol_tn.Handler.Unframed

-- The reads of the socket, one after the other.
unfoldable pub feed_reads : Client → List Bytes → Client
feed_reads c [] = c
feed_reads c (x ∷ xs) = feed_reads (feed x c) xs

-- What the client makes of a token: data, and a callback for each command but SE.
abbrev pub token_events : Token → List Event
token_events (byte b) = single b ∷ []
token_events (Token.command n) = if n == se then [] else on_standalone_command n ∷ []

abbrev pub all_events : List Token → List Event
all_events [] = []
all_events (t ∷ ts) = token_events t ++ all_events ts

-- The application data among the callbacks.
abbrev pub data_of : List Event → Bytes
data_of [] = []
data_of (on_app_data bs ∷ es) = bs ++ data_of es
data_of (e ∷ es) = data_of es

abbrev pub with_calls : List Event → Client → Client
with_calls es c = record c { calls = c.calls ++ es }

hear_token :
    (t : Token) (c : Client)
    → c.state ≡ plain_data
    → IsToken t
    → hear_all (token_bytes t) c ≡ with_calls (token_events t) c
unfolding hear_all hear
hear_token (byte b) c h v = ground (arith, h)
hear_token (Token.command n) c h v = ground (arith, h, v, append-nil c.calls)

hear_all-encode :
    (ts : List Token) (c : Client)
    → c.state ≡ plain_data
    → All IsToken ts
    → hear_all (encode ts) c ≡ with_calls (all_events ts) c
hear_all-encode [] c h v = unfold hear_all in (λ i. record c { calls = sym (append-nil c.calls) i })
hear_all-encode (t ∷ ts) c h (v, vs) =
    hear_all-append (token_bytes t) (encode ts) c
    ∙ ap (hear_all (encode ts)) (hear_token t c h v)
    ∙ hear_all-encode ts (with_calls (token_events t) c) h vs
    ∙ (λ i. record c { calls = append_assoc c.calls (token_events t) (all_events ts) i })

heard-feed_reads :
    (reads : List Bytes) (c : Client)
    → IsTidy c
    → heard (feed_reads c reads) ≡ hear_all (concat reads) (heard c)
unfolding feed_reads hear_all
heard-feed_reads [] c v = refl
heard-feed_reads (x ∷ xs) c v =
    let (e, next) = heard-feed x c v in
    heard-feed_reads xs (feed x c) next
    ∙ ap (hear_all (concat xs)) e
    ∙ sym (hear_all-append x (concat xs) (heard c))

data_of-all_events : (ts : List Token) → data_of (all_events ts) ≡ bytes_of ts
data_of-all_events [] = refl
data_of-all_events (byte b ∷ ts) = ap (◌∷◌ b) (data_of-all_events ts)
data_of-all_events (Token.command n ∷ ts) = elim (Bool-cases (n == se)) [
  | inl e ↦ rw e (data_of-all_events ts)
  | inr e ↦ rw e (data_of-all_events ts)
]

-- A stream of data and of commands without an option, cut into reads in any way, reaches a handler
-- whose handshake is complete, that has not agreed on END-OF-RECORD, and that is in no
-- subnegotiation and holds no half command, and a Telnet client in State::Data. Both hear the same data,
-- byte by byte and in order: the handler that alone, with no other change, and the client with a
-- callback for each command but SE in its place, and with no other change.
pub process_reads-feed_reads :
    (w : World) (reads : List Bytes) (ts : List Token) (h : Handler) (c : Client)
    → IsUnframed h
    → h.receive_buffer ≡ []
    → c.state ≡ plain_data
    → All IsToken ts
    → concat reads ≡ encode ts
    → (Unframed.heard (process_reads w h reads) ≡ hears (bytes_of ts) [] (Unframed.heard h))
      × (heard (feed_reads c reads) ≡ with_calls (all_events ts) (heard c))
      × (data_of (all_events ts) ≡ bytes_of ts)
process_reads-feed_reads w reads ts h c v empty d a e = (
  process_reads-encode w reads ts h v (inl empty) a (rw empty e),
  heard-feed_reads reads c (unfold IsTidy in inl d) ∙ rw e (hear_all-encode ts (heard c) d a),
  data_of-all_events ts,
)
