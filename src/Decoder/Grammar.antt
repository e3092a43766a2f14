-- ===== src/Decoder/Grammar.antt =====
-- The 5250 data stream as a grammar, apart from the decoder's code: the commands that a payload holds
-- and the orders that a Write To Display holds, the bytes that stand for each, and the callbacks and
-- display bytes that tn5250/client/decoder.cpp is meant to make of it (RFC 1205 and the comments of
-- decoder.h and decoder.cpp).
pub mod Orders
pub mod Commands
pub mod Payload
pub mod Stream
use protocol_tn.Base.{
  ℕ, zero, suc, ◌+◌, ◌-◌, ◌*◌, ◌/◌, ◌%◌, ◌≤◌, ◌<◌, min, Bool, true, false, not, ◌&&◌, ◌||◌, Option,
  none, some, List, [], ◌∷◌, ◌++◌, map, Bytes, IsByte, IsBytes, All, be16, is_empty, length, take,
  drop, get_or, set, replicate, ltb, leb, ◌==◌, if◌then◌else◌, ◌≡◌, refl, sym, ap, ap₂, ◌∙◌, ◌≢◌,
  inl, inr, ◌⊎◌, arith, Bool-cases, ==_iff, length-append, length-take, length-drop, take_append,
  drop_append, get_or_append, append-nil, append_assoc, take-length, drop-length, take-append-drop,
  tests, ltb→lt, ltb→ge, lt→ltb, ge→ltb,
}
use protocol_tn.Protocol.{
  esc, soh, order_sba, order_ic, order_mc, order_ra, order_ea, order_td, order_wdsf, order_sf,
  strpccmd_trigger, strpccmd_signature,
}
use protocol_tn.Decoder.Event.{
  Event, on_soh, on_strpccmd_requested, Output, silent, shows, calls, ◌then_also◌,
}

pub data DisplayOrder : Type 0 where
  -- A byte of display data.
  text : ℕ → DisplayOrder
  -- Set Buffer Address, Insert Cursor or Move Cursor, with a row and a column.
  address : ℕ → ℕ → ℕ → DisplayOrder
  -- Repeat to Address or Erase to Address, with a row, a column and one more byte.
  to_address : ℕ → ℕ → ℕ → ℕ → DisplayOrder
  transparent : Bytes → DisplayOrder
  -- Write to Display Structured Field, with the two bytes of its length.
  structured : ℕ → ℕ → Bytes → DisplayOrder
  -- Start of Header, with what stands behind its length byte.
  header : Bytes → DisplayOrder
  -- STRPCCMD, with the wait flag and the command.
  program_call : ℕ → Bytes → DisplayOrder
  -- Start Field: two format bytes, the control words, the attribute and the two length bytes.
  start_field : ℕ → ℕ → List (ℕ × ℕ) → ℕ → ℕ → ℕ → DisplayOrder

abbrev pub word_bytes : List (ℕ × ℕ) → Bytes
word_bytes [] = []
word_bytes ((a, b) ∷ ws) = a ∷ b ∷ word_bytes ws

abbrev pub order_code : DisplayOrder → ℕ
order_code (text b) = b
order_code (address code row col) = code
order_code (to_address code row col b) = code
order_code (transparent body) = order_td
order_code (structured hi lo body) = order_wdsf
order_code (header body) = soh
order_code (program_call flag command) = strpccmd_trigger
order_code (start_field w1 w2 words attr hi lo) = order_sf

-- The bytes behind the code.
abbrev pub order_body : DisplayOrder → Bytes
order_body (text b) = []
order_body (address code row col) = row ∷ col ∷ []
order_body (to_address code row col b) = row ∷ col ∷ b ∷ []
order_body (transparent body) = length body ∷ body
order_body (structured hi lo body) = hi ∷ lo ∷ body
order_body (header body) = length body ∷ body
order_body (program_call flag command) = strpccmd_signature ++ (flag ∷ command)
order_body (start_field w1 w2 words attr hi lo) =
    w1 ∷ w2 ∷ (word_bytes words ++ (attr ∷ hi ∷ lo ∷ []))

abbrev pub order_bytes : DisplayOrder → Bytes
order_bytes o = order_code o ∷ order_body o

-- The error row and the three command key switches; those past the end of a short header are 0.
abbrev pub header_events : Bytes → List Event
header_events body =
    if leb 4 (length body)
    then on_soh (get_or body 3 0) (get_or body 4 0) (get_or body 5 0) (get_or body 6 0) ∷ []
    else []

-- Header, structured field and program call are taken out of the display data; all else is kept.
abbrev pub order_meaning : DisplayOrder → Output
order_meaning (structured hi lo body) = silent
order_meaning (header body) = calls (header_events body)
order_meaning (program_call flag command) =
    calls (on_strpccmd_requested (flag == 0x81) command ∷ [])
order_meaning (text b) = shows (order_bytes (text b))
order_meaning (address code row col) = shows (order_bytes (address code row col))
order_meaning (to_address code row col b) = shows (order_bytes (to_address code row col b))
order_meaning (transparent body) = shows (order_bytes (transparent body))
order_meaning (start_field w1 w2 words attr hi lo) =
    shows (order_bytes (start_field w1 w2 words attr hi lo))

-- A byte that begins no order and no command.
pub record IsText (b : ℕ) : Type 0 where
  pub no_esc : b ≢ esc
  pub no_soh : b ≢ soh
  pub no_sba : b ≢ order_sba
  pub no_ic : b ≢ order_ic
  pub no_mc : b ≢ order_mc
  pub no_ra : b ≢ order_ra
  pub no_ea : b ≢ order_ea
  pub no_td : b ≢ order_td
  pub no_wdsf : b ≢ order_wdsf
  pub no_sf : b ≢ order_sf
  pub no_trigger : b ≢ strpccmd_trigger

-- The three top bits of a display attribute are 001.
abbrev pub IsAttribute : ℕ → Type 0
IsAttribute b = b / 32 % 8 ≡ 1

-- What ends a command: its 123rd byte, the end of the payload, or a byte below 0x40.
abbrev pub EndsCommand : Bytes → Bytes → Type 0
EndsCommand command [] = Unit
EndsCommand command (b ∷ bs) = (length command ≡ 123) ⊎ (b < 0x40)

-- The order is well formed, with `rest` behind it in the payload.
abbrev pub IsOrder : DisplayOrder → Bytes → Type 0
IsOrder (text b) rest = IsText b
IsOrder (address code row col) rest = (code ≡ order_sba) ⊎ (code ≡ order_ic) ⊎ (code ≡ order_mc)
IsOrder (to_address code row col b) rest = (code ≡ order_ra) ⊎ (code ≡ order_ea)
IsOrder (transparent body) rest = Unit
IsOrder (structured hi lo body) rest = be16 hi lo ≡ 2 + length body
IsOrder (header body) rest = Unit
IsOrder (program_call flag command) rest =
    (flag ≢ esc) × (length command ≤ 123) × All (λ b. 0x40 ≤ b) command × EndsCommand command rest
IsOrder (start_field w1 w2 words attr hi lo) rest =
    All (λ w. ¬ IsAttribute w.0) words × IsAttribute attr

abbrev pub orders_bytes : List DisplayOrder → Bytes → Bytes
orders_bytes [] rest = rest
orders_bytes (o ∷ os) rest = order_bytes o ++ orders_bytes os rest

abbrev pub AreOrders : List DisplayOrder → Bytes → Type 0
AreOrders [] rest = Unit
AreOrders (o ∷ os) rest = IsOrder o (orders_bytes os rest) × AreOrders os rest

abbrev pub orders_meaning : List DisplayOrder → Output
orders_meaning [] = silent
orders_meaning (o ∷ os) = order_meaning o then_also orders_meaning os
