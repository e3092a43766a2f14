-- ===== src/Telnet/Client.antt =====
-- tn5250/telnet/client.h and client.cpp: the Telnet parser. A callback is an event in `calls`; every
-- callback is taken to be installed.
pub mod Hearing
pub mod RoundTrip
use protocol_tn.Base.{ℕ, Bool, List, [], ◌∷◌, ◌++◌, Bytes, is_empty, ◌==◌, if◌then◌else◌}
use protocol_tn.Telnet.Command.{iac, se, sb, transmit_binary, is_standalone_telnet_command}

pub data State : Type 0 where
  plain_data : State
  command : State
  negotiation_option : State
  subnegotiation_option : State
  subnegotiation_data : State
  subnegotiation_command : State

pub data Event : Type 0 where
  on_app_data : Bytes → Event
  on_negotiation_command : ℕ → ℕ → Event
  on_subnegotiation : ℕ → Bytes → Event
  on_standalone_command : ℕ → Event

pub record Client : Type 0 where
  pub state : State
  pub app_buffer : Bytes
  pub pending_cmd : ℕ
  pub pending_opt : ℕ
  pub sb_opt : ℕ
  pub sb_buffer : Bytes
  pub calls : List Event

abbrev pub new : Client
new = record {
  state = plain_data;
  app_buffer = [];
  pending_cmd = iac;
  pending_opt = transmit_binary;
  sb_opt = transmit_binary;
  sb_buffer = [];
  calls = [];
}

abbrev pub call : Event → Client → Client
call e c = record c { calls = c.calls ++ (e ∷ []) }

unfoldable pub flush_app_data : Client → Client
flush_app_data c = record (if is_empty c.app_buffer then c else call (on_app_data c.app_buffer) c) {
  app_buffer = [];
}

unfoldable pub reset : Client → Client
reset c = record c { state = plain_data; app_buffer = []; sb_buffer = [] }

-- The case State::Data.
unfoldable pub data_byte : ℕ → Client → Client
data_byte b c =
    if b == iac
    then record (flush_app_data c) { state = command }
    else record c { app_buffer = c.app_buffer ++ (b ∷ []) }

-- The case State::IAC.
unfoldable pub command_byte : ℕ → Client → Client
command_byte b c =
    if b == iac
    then record c { app_buffer = c.app_buffer ++ (0xFF ∷ []); state = plain_data }
    else if b == sb
    then record c { state = subnegotiation_option }
    else if b == se
    then record c { state = plain_data }
    else if is_standalone_telnet_command b
    then record (call (on_standalone_command b) c) { state = plain_data }
    else record c { pending_cmd = b; state = negotiation_option }

-- The case State::SubnegotiationIAC.
unfoldable pub subnegotiation_command_byte : ℕ → Client → Client
subnegotiation_command_byte b c =
    if b == iac
    then record c { sb_buffer = c.sb_buffer ++ (0xFF ∷ []); state = subnegotiation_data }
    else if b == se
    then record (call (on_subnegotiation c.sb_opt c.sb_buffer) c) {
      sb_buffer = [];
      state = plain_data;
    }
    else record c { state = subnegotiation_data }

-- The body of the loop of feed.
unfoldable pub feed_byte : ℕ → Client → Client
feed_byte b c = elim c.state [
  | plain_data ↦ data_byte b c
  | command ↦ command_byte b c
  | negotiation_option ↦ record (call (on_negotiation_command c.pending_cmd b) c) {
    pending_opt = b;
    state = plain_data;
  }
  | subnegotiation_option ↦ record c { sb_opt = b; sb_buffer = []; state = subnegotiation_data }
  | subnegotiation_data ↦
      if b == iac
      then record c { state = subnegotiation_command }
      else record c { sb_buffer = c.sb_buffer ++ (b ∷ []) }
  | subnegotiation_command ↦ subnegotiation_command_byte b c
]

unfoldable pub feed_bytes : Bytes → Client → Client
feed_bytes [] c = c
feed_bytes (b ∷ bs) c = feed_bytes bs (feed_byte b c)

unfoldable pub feed : Bytes → Client → Client
feed input c = flush_app_data (feed_bytes input c)
