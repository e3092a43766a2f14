-- ===== src/Message/Result.antt =====
-- The outcomes of the unmarshal methods of tn5250/message. An `std::string *error` is taken to be
-- given, and its text is one of these.
use protocol_tn.Base.{ℕ}

pub data Error : Type 0 where
  -- The text is left as the caller gave it.
  unset : Error
  no_order_code : Error
  unknown_order_code : ℕ → Error
  -- The class of the order, by its code.
  order_too_short : ℕ → Error
  invalid_order_code : ℕ → Error
  truncated_attribute : Error
  truncated_length : Error
  in_order : Error → Error
  command_too_short : Error
  control_bytes_missing : Error
  no_escape : Error
  wrong_command_code : ℕ → Error
  in_commands : Error → Error
  fixed_header_too_short : Error
  variable_length_missing : Error
  variable_header_too_short : Error
  variable_header_cut : Error
  marshalling_command : Error
  record_too_large : Error

pub data Result {ℓ} (A : Type ℓ) : Type ℓ where
  ok : A → Result A
  err : Error → Result A

infixl 5 ◌>>=◌
abbrev pub ◌>>=◌ {ℓ κ} : {A : Type ℓ} {B : Type κ} → Result A → (A → Result B) → Result B
ok a >>= f = f a
err e >>= f = err e
