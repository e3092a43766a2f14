-- ===== src/Handler/State.antt =====
-- tn5250/client/protocol_handler.h: the state of a ProtocolHandler. An invocation of a callback is an
-- event in `calls`; every callback is taken to be installed, and none calls the handler back.
use protocol_tn.Base.{ℕ, Bool, false, not, List, [], ◌∷◌, ◌++◌, Bytes, ◌==◌, ◌&&◌, if◌then◌else◌}
use protocol_tn.Telnet.Command.{transmit_binary}
use protocol_tn.CodePage.{PageId}
use protocol_tn.IbmRSeed.{Des}

pub data ConnectionState : Type 0 where
  disconnected : ConnectionState
  connecting : ConnectionState
  negotiating : ConnectionState
  connected : ConnectionState
  error : ConnectionState

pub record Config : Type 0 where
  pub device_name : Bytes
  pub terminal_type : Bytes
  pub username : Bytes
  pub password : Bytes
  pub code_page : PageId

-- The messages of onLog; the formatted one keeps the byte that it prints.
pub data Log : Type 0 where
  unescaped_iac : ℕ → Log
  length_mismatch : Log

pub data Event : Type 0 where
  on_send_bytes : Bytes → Event
  on_connected : Event
  on_disconnected : Event
  on_data_received : Bytes → Event
  on_state_changed : ConnectionState → Event
  on_log : Log → Event

-- What the handler does not implement: DES, and the random device, by the
-- count of the seeds drawn and that of the bytes of one.
pub record World : Type 0 where
  pub des : Des
  pub random_byte : ℕ → ℕ → ℕ

pub record Handler : Type 0 where
  pub config : Config
  pub state : ConnectionState
  pub server_seed : Bytes
  pub receive_buffer : Bytes
  pub record_buffer : Bytes
  pub in_subnegotiation : Bool
  pub current_subnegotiation : ℕ
  pub subnegotiation_buffer : Bytes
  pub handshake_complete : Bool
  pub handshake_buffer : Bytes
  pub binary_negotiated : Bool
  pub eor_negotiated : Bool
  pub terminal_type_sent : Bool
  pub draws : ℕ
  pub calls : List Event

unfoldable pub new : Config → Handler
new c = record {
  config = c;
  state = disconnected;
  server_seed = [];
  receive_buffer = [];
  record_buffer = [];
  in_subnegotiation = false;
  current_subnegotiation = transmit_binary;
  subnegotiation_buffer = [];
  handshake_complete = false;
  handshake_buffer = [];
  binary_negotiated = false;
  eor_negotiated = false;
  terminal_type_sent = false;
  draws = 0;
  calls = [];
}

abbrev pub call : Event → Handler → Handler
call e h = record h { calls = h.calls ++ (e ∷ []) }

-- Which enumerator a state is.
abbrev pub rank : ConnectionState → ℕ
rank disconnected = 0
rank connecting = 1
rank negotiating = 2
rank connected = 3
rank error = 4

unfoldable pub set_state : ConnectionState → Handler → Handler
set_state s h =
    if not (rank h.state == rank s) then call (on_state_changed s) (record h { state = s }) else h

-- Records are handed over at IAC EOR.
abbrev pub framing : Handler → Bool
framing h = h.handshake_complete && h.eor_negotiated
