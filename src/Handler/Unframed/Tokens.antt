-- ===== src/Handler/Unframed/Tokens.antt =====
-- A stream that a protocol handler reads without END-OF-RECORD, and the handler in that state.
use protocol_tn.Base.{ℕ, true, false, List, [], ◌∷◌, ◌++◌, Bytes, ◌==◌, if◌then◌else◌, ◌≡◌}
use protocol_tn.Telnet.Command.{iac, is_standalone_telnet_command}
use protocol_tn.Handler.State.{Handler}

-- A stream of data and of commands that take no option.
pub data Token : Type 0 where
  byte : ℕ → Token
  command : ℕ → Token

abbrev pub IsToken : Token → Type 0
IsToken (byte b) = Unit
IsToken (command n) = is_standalone_telnet_command n ≡ true

abbrev pub token_bytes : Token → Bytes
token_bytes (byte b) = if b == iac then iac ∷ iac ∷ [] else b ∷ []
token_bytes (command n) = iac ∷ n ∷ []

-- The stream on the wire.
abbrev pub encode : List Token → Bytes
encode [] = []
encode (t ∷ ts) = token_bytes t ++ encode ts

abbrev pub bytes_of : List Token → Bytes
bytes_of [] = []
bytes_of (byte b ∷ ts) = b ∷ bytes_of ts
bytes_of (command n ∷ ts) = bytes_of ts

pub record IsUnframed (h : Handler) : Type 0 where
  pub complete : h.handshake_complete ≡ true
  pub no_eor : h.eor_negotiated ≡ false
  pub no_subnegotiation : h.in_subnegotiation ≡ false
