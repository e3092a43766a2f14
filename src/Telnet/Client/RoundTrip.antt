-- ===== src/Telnet/Client/RoundTrip.antt =====
-- A record that the protocol handler's sendRawData wrote, as a Telnet client hears it.
use protocol_tn.Base.{
  ℕ, false, [], ◌∷◌, ◌++◌, map, Bytes, ◌==◌, Bool-cases, inl, inr, ==_iff, ◌≡◌, sym, ap, ◌∙◌, arith,
  append-nil, append_assoc,
}
use protocol_tn.Telnet.Command.{iac, eor}
use protocol_tn.Telnet.Client.{plain_data, on_standalone_command, Client, call, feed}
use protocol_tn.Telnet.Client.Hearing.{single, heard, hear, hear_all, IsTidy, heard-feed}
use protocol_tn.Handler.Send.{escape_iac}

-- The client with data handed over byte by byte.
abbrev pub hears : Bytes → Client → Client
hears d c = record c { calls = c.calls ++ map single d }

hears_nil : (c : Client) → c ≡ hears [] c
hears_nil c = λ i. record c { calls = sym (append-nil c.calls) i }

hears_more : (b : ℕ) (d : Bytes) (c : Client) → hears d (call (single b) c) ≡ hears (b ∷ d) c
hears_more b d c = λ i. record c { calls = append_assoc c.calls (single b ∷ []) (map single d) i }

hear_plain :
    (b : ℕ) (c : Client) → c.state ≡ plain_data → (b == iac) ≡ false → hear b c ≡ call (single b) c
unfolding hear
hear_plain b c h e = ground arith

hear_doubled : (c : Client) → c.state ≡ plain_data → hear iac (hear iac c) ≡ call (single iac) c
unfolding hear
hear_doubled c h = ground arith

hear_all-escape_iac :
    (d rest : Bytes) (c : Client)
    → c.state ≡ plain_data
    → hear_all (escape_iac d ++ rest) c ≡ hear_all rest (hears d c)
unfolding escape_iac hear_all
hear_all-escape_iac [] rest c h = ap (hear_all rest) (hears_nil c)
hear_all-escape_iac (b ∷ d) rest c h = elim (Bool-cases (b == iac)) [
  | inl e ↦ rw ((==_iff b iac).0 e) (
      ap (hear_all (escape_iac d ++ rest)) (hear_doubled c h)
      ∙ hear_all-escape_iac d rest (call (single iac) c) h
      ∙ ap (hear_all rest) (hears_more iac d c))
  | inr e ↦ rw e (
      ap (hear_all (escape_iac d ++ rest)) (hear_plain b c h e)
      ∙ hear_all-escape_iac d rest (call (single b) c) h
      ∙ ap (hear_all rest) (hears_more b d c))
]

hear_eor :
    (c : Client) → c.state ≡ plain_data → hear eor (hear iac c) ≡ call (on_standalone_command eor) c
unfolding hear
hear_eor c h = ground arith

-- A client in State::Data hears of a record that sendRawData wrote every byte, 0xFF among them, in
-- order and no other, and then the end of the record.
pub feed-escape_iac :
    (d : Bytes) (c : Client)
    → c.state ≡ plain_data
    → heard (feed (escape_iac d ++ (iac ∷ eor ∷ [])) c)
      ≡ call (on_standalone_command eor) (hears d (heard c))
unfolding hear_all
feed-escape_iac d c h =
    (heard-feed (escape_iac d ++ (iac ∷ eor ∷ [])) c (unfold IsTidy in inl h)).0
    ∙ hear_all-escape_iac d (iac ∷ eor ∷ []) (heard c) h
    ∙ hear_eor (hears d (heard c)) h
