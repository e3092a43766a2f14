-- ===== src/Handler/Unframed/Read.antt =====
-- One read of a stream of tokens by processTelnetData, without END-OF-RECORD.
use protocol_tn.Base.{
  ℕ, true, false, List, [], ◌∷◌, ◌++◌, Bytes, All, length, drop, get_or, ◌==◌, ◌≡◌, refl, sym, ap,
  ◌∙◌, inl, inr, ◌⊎◌, arith, Bool-cases, ==_iff, append-nil, append_assoc,
}
use protocol_tn.Telnet.Command.{iac, is_standalone_telnet_command}
use protocol_tn.Handler.State.{World}
use protocol_tn.Handler.Receive.{
  Receiver, stop, go, append_data, is_unescaped, standalone, iac_round, receive_round,
}
use protocol_tn.Handler.Receive.Loop.{received, received_stop, received_go}
use protocol_tn.Handler.RoundTrip.{nothing_round, plain_round, doubled_round}
use protocol_tn.Handler.Unframed.Tokens.{
  Token, byte, command, IsToken, encode, bytes_of, IsUnframed,
}

-- The receiver with more data.
abbrev pub gain : Bytes → Receiver → Receiver
gain d r = record r { processed = r.processed ++ d }

gain_nil : (r : Receiver) → r ≡ gain [] r
gain_nil r = λ i. record r { processed = sym (append-nil r.processed) i }

gain-gain : (c d : Bytes) (r : Receiver) → gain d (gain c r) ≡ gain (c ++ d) r
gain-gain c d r = λ i. record r { processed = append_assoc r.processed c d i }

append_data_gains :
    (b : ℕ) (r : Receiver) → IsUnframed r.handler → append_data b r ≡ gain (b ∷ []) r
unfolding append_data
append_data_gains b r v = ground (arith, v.complete, v.no_eor)

plain_gains :
    (w : World) (b : ℕ) (rest : Bytes) (r : Receiver)
    → IsUnframed r.handler
    → (b == iac) ≡ false
    → receive_round w (b ∷ rest) r ≡ go (gain (b ∷ []) r) rest
plain_gains w b rest r v e =
    plain_round w b rest r e v.no_subnegotiation ∙ ap (λ s. go s rest) (append_data_gains b r v)

doubled_gains :
    (w : World) (rest : Bytes) (r : Receiver)
    → IsUnframed r.handler
    → receive_round w (iac ∷ iac ∷ rest) r ≡ go (gain (iac ∷ []) r) rest
doubled_gains w rest r v = doubled_round w rest r ∙ ap (λ s. go s rest) (append_data_gains iac r v)

command_skips :
    (w : World) (n : ℕ) (rest : Bytes) (r : Receiver)
    → IsUnframed r.handler
    → is_standalone_telnet_command n ≡ true
    → receive_round w (iac ∷ n ∷ rest) r ≡ go r rest
unfolding receive_round iac_round is_unescaped standalone
command_skips w n rest r v s = ground (arith, v.complete, v.no_eor, v.no_subnegotiation, s)

half_stops : (w : World) (r : Receiver) → receive_round w (iac ∷ []) r ≡ stop
unfolding receive_round iac_round
half_stops w r = refl

-- Nothing waits, or an IAC does.
abbrev pub IsHalf : Bytes → Type 0
IsHalf bs = (bs ≡ []) ⊎ (bs ≡ iac ∷ [])

-- What a read of `bs` does, where `rest` comes after it and all are the tokens: the data that it gives,
-- the bytes it leaves, and the tokens that begin with these.
pub record Split (w : World) (ts : List Token) (bs rest : Bytes) (r : Receiver) : Type 0 where
  pub gained : Bytes
  pub later : List Token
  pub left : Bytes
  pub all_data : bytes_of ts ≡ gained ++ bytes_of later
  pub round : received w bs r ≡ (gain gained r, left)
  pub all_bytes : left ++ rest ≡ encode later
  pub tokens : All IsToken later
  pub half : IsHalf left

-- Half of a command, or of a doubled 0xFF, waits.
halted :
    (w : World) (ts : List Token) (x : ℕ) (rest : Bytes) (r : Receiver)
    → All IsToken ts
    → x ≡ iac
    → x ∷ rest ≡ encode ts
    → Split w ts (x ∷ []) rest r
halted w ts x rest r a p e = record {
  gained = [];
  later = ts;
  left = x ∷ [];
  half = inr (ap (λ y. y ∷ []) p);
  all_data = refl;
  round = received_stop w (x ∷ []) r (rw p (half_stops w r)) ∙ ap (λ s. (s, x ∷ [])) (gain_nil r);
  all_bytes = e;
  tokens = a;
}

-- A round for the token `t`, with the data `d`, and what the bytes behind it do.
passed :
    (w : World) (t : Token) (ts : List Token) (bs more rest d : Bytes) (r : Receiver)
    → bytes_of (t ∷ ts) ≡ d ++ bytes_of ts
    → receive_round w bs r ≡ go (gain d r) more
    → Split w ts more rest (gain d r)
    → Split w (t ∷ ts) bs rest r
passed w t ts bs more rest d r p here s = record {
  gained = d ++ s.gained;
  later = s.later;
  left = s.left;
  all_data = p ∙ ap (◌++◌ d) s.all_data ∙ sym (append_assoc d s.gained (bytes_of s.later));
  round =
      received_go w bs more r (gain d r) here
      ∙ s.round
      ∙ ap (λ g. (g, s.left)) (gain-gain d s.gained r);
  all_bytes = s.all_bytes;
  tokens = s.tokens;
  half = s.half;
}

doubled :
    (w : World) (b : ℕ) (ts : List Token) (x : ℕ) (bs rest : Bytes) (r : Receiver)
    → IsUnframed r.handler
    → All IsToken (byte b ∷ ts)
    → b ≡ iac
    → x ∷ (bs ++ rest) ≡ encode (byte b ∷ ts)
    → x ∷ (bs ++ rest) ≡ iac ∷ iac ∷ encode ts
    → ((cs : Bytes) → cs ++ rest ≡ encode ts → Split w ts cs rest (gain (b ∷ []) r))
    → Split w (byte b ∷ ts) (x ∷ bs) rest r
doubled w b ts x [] rest r v a p e f again =
    halted w (byte b ∷ ts) x rest r a (ap (λ l. get_or l 0 0) f) e
doubled w b ts x (y ∷ bs) rest r v a p e f again =
    let here : receive_round w (x ∷ y ∷ bs) r ≡ go (gain (b ∷ []) r) bs =
      rw (ap (λ l. get_or l 0 0) f, ap (λ l. get_or l 1 0) f, p) (doubled_gains w bs r v) in
    passed w (byte b) ts (x ∷ y ∷ bs) bs rest (b ∷ []) r refl here (again bs (ap (drop 2) f))

pub split :
    (w : World) (ts : List Token) (bs rest : Bytes) (r : Receiver)
    → IsUnframed r.handler
    → All IsToken ts
    → bs ++ rest ≡ encode ts
    → Split w ts bs rest r
split w ts [] rest r v a e = record {
  gained = [];
  later = ts;
  left = [];
  half = inl refl;
  all_data = refl;
  round = received_stop w [] r (nothing_round w r) ∙ ap (λ s. (s, [])) (gain_nil r);
  all_bytes = e;
  tokens = a;
}
split w [] (x ∷ bs) rest r v a e = absurd (omega (arith, ap length e))
split w (command n ∷ ts) (x ∷ []) rest r v a e =
    halted w (command n ∷ ts) x rest r a (ap (λ l. get_or l 0 0) e) e
split w (command n ∷ ts) (x ∷ y ∷ bs) rest r v (a, vs) e =
    let here : receive_round w (x ∷ y ∷ bs) r ≡ go r bs =
      rw (ap (λ l. get_or l 0 0) e, ap (λ l. get_or l 1 0) e) (command_skips w n bs r v a) in
    passed w (command n) ts (x ∷ y ∷ bs) bs rest [] r refl (here ∙ ap (λ s. go s bs) (gain_nil r))
      (split w ts bs rest (gain [] r) v vs (ap (drop 2) e))
split w (byte b ∷ ts) (x ∷ bs) rest r v (a, vs) e = elim (Bool-cases (b == iac)) [
  | inr n ↦
      let f : x ∷ (bs ++ rest) ≡ b ∷ encode ts = e ∙ rw n in
      let here : receive_round w (x ∷ bs) r ≡ go (gain (b ∷ []) r) bs =
        rw (ap (λ l. get_or l 0 0) f) (plain_gains w b bs r v n) in
      passed w (byte b) ts (x ∷ bs) bs rest (b ∷ []) r refl here
        (split w ts bs rest (gain (b ∷ []) r) v vs (ap (drop 1) f))
  | inl n ↦
      doubled w b ts x bs rest r v (a, vs) ((==_iff b iac).0 n) e (e ∙ rw n)
        (λ cs f. split w ts cs rest (gain (b ∷ []) r) v vs f)
]
