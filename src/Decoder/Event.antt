-- ===== src/Decoder/Event.antt =====
-- tn5250/client/decoder.h: the decoder's callbacks as events. An invocation of a callback is one
-- event that carries its arguments; every callback is taken to be installed.
use protocol_tn.Base.{ℕ, Bool, Bytes, List, [], ◌++◌, ◌≡◌, append-nil, append_assoc}

-- TN5250Command.
pub data Command : Type 0 where
  write_structured_field : Command
  erase_write : Command
  erase_write_alternate : Command
  read_modify : Command
  read_modify_write : Command
  read_mdt_fields : Command
  read_input_fields : Command
  read_immediate : Command

-- The messages given to onParseError; the formatted ones keep the byte that they print.
pub data ParseError : Type 0 where
  record_too_short : ParseError
  incomplete_variable_header : ParseError
  variable_header_too_short : ParseError
  wsf_length_out_of_range : ParseError
  unknown_esc_command : ℕ → ParseError
  stray_byte : ℕ → ParseError

pub data Event : Type 0 where
  on_command_received : Command → Bytes → Event
  on_raw_screen_data : Bytes → Event
  on_clear_screen : Event
  on_clear_screen_alternate : Event
  on_keyboard_unlock : Event
  on_control_characters : ℕ → ℕ → Event
  on_soh : ℕ → ℕ → ℕ → ℕ → Event
  on_roll : ℕ → ℕ → ℕ → Bool → Event
  on_write_error_code : Bytes → Event
  on_save_screen : Event
  on_clear_format_table : Event
  on_invite : Event
  on_cancel_invite : Event
  on_message_light_on : Event
  on_message_light_off : Event
  on_read_screen : Bool → Event
  on_write_structured_field : Bytes → Event
  on_strpccmd_requested : Bool → Bytes → Event
  on_parse_error : ParseError → Event

-- What a part of a payload adds: bytes of the local vector `display`, and callbacks in order.
pub record Output : Type 0 where
  pub display : Bytes
  pub events : List Event

abbrev pub silent : Output
silent = record { display = []; events = [] }

abbrev pub shows : Bytes → Output
shows bs = record { display = bs; events = [] }

abbrev pub calls : List Event → Output
calls es = record { display = []; events = es }

infixl 65 ◌then_also◌
abbrev pub ◌then_also◌ : Output → Output → Output
a then_also b = record { display = a.display ++ b.display; events = a.events ++ b.events }

pub then_also_assoc : (a b c : Output) → (a then_also b) then_also c ≡ a then_also (b then_also c)
then_also_assoc a b c = λ i. record {
  display = append_assoc a.display b.display c.display i;
  events = append_assoc a.events b.events c.events i;
}

pub then_also-silent : (a : Output) → a then_also silent ≡ a
then_also-silent a =
    λ i. record { display = append-nil a.display i; events = append-nil a.events i }
