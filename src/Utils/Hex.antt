-- ===== src/Utils/Hex.antt =====
-- tn5250/utils/hex: hex.cpp.
pub mod Laws
pub mod Dump
use protocol_tn.Base.{
  ℕ, zero, suc, ◌+◌, ◌-◌, ◌*◌, ◌/◌, ◌%◌, ◌^◌, ◌≤◌, ◌<◌, min, Bool, true, false, not, ◌&&◌, ◌||◌,
  Option, none, some, List, [], ◌∷◌, ◌++◌, map, Bytes, IsByte, IsBytes, All, be16, is_empty, length,
  take, drop, get_or, set, replicate, ltb, leb, ◌==◌, if◌then◌else◌, ◌≡◌, refl, sym, ap, ap₂, ◌∙◌,
  ◌≢◌, inl, inr, ◌⊎◌, arith, Bool-cases, ==_iff, length-append, length-take, length-drop,
  length-replicate, take_append, drop_append, get_or_append, append-nil, append_assoc, take-length,
  drop-length, take_prefix, drop_prefix, subst, take-append-drop, tests, ltb→lt, ltb→ge, lt→ltb,
  ge→ltb,
}

abbrev pub lower_digit : ℕ → ℕ
lower_digit d = if ltb d 10 then 0x30 + d else 0x57 + d

abbrev pub upper_digit : ℕ → ℕ
upper_digit d = if ltb d 10 then 0x30 + d else 0x37 + d

-- What an std::ostream writes for an unsigned number, to a base: the digits of it, at most `fuel` of
-- them. A uint64_t has 16 hexadecimal digits at most, and 20 decimal ones.
unfoldable pub digits : ℕ → (ℕ → ℕ) → ℕ → ℕ → Bytes
digits base digit zero v = []
digits base digit (suc fuel) v =
    let high = digits base digit fuel (v / base) in
    (if v / base == 0 then [] else high) ++ (digit (v % base) ∷ [])

-- std::setfill('0') and std::setw.
abbrev pub zero_filled : ℕ → Bytes → Bytes
zero_filled width ds = replicate (width - length ds) 0x30 ++ ds

unfoldable pub to_hex_string_padded_generic : ℕ → ℕ → Bytes
to_hex_string_padded_generic v width = zero_filled width (digits 16 lower_digit 16 v)

abbrev pub to_hex_string_padded_2 : ℕ → Bytes
to_hex_string_padded_2 v = to_hex_string_padded_generic v 2

abbrev pub to_hex_string_padded_4 : ℕ → Bytes
to_hex_string_padded_4 v = to_hex_string_padded_generic v 4

abbrev pub to_hex_string_padded_8 : ℕ → Bytes
to_hex_string_padded_8 v = to_hex_string_padded_generic v 8

abbrev pub to_hex_string_padded_16 : ℕ → Bytes
to_hex_string_padded_16 v = to_hex_string_padded_generic v 16

-- "00000 0000:", the offset in pieces of 65536.
abbrev pub offset_text : ℕ → Bytes
offset_text offset =
    zero_filled 5 (digits 10 upper_digit 20 (offset / 65536))
    ++ (0x20 ∷ (zero_filled 4 (digits 16 upper_digit 16 (offset % 65536)) ++ (0x3A ∷ [])))

abbrev pub hex_cell : ℕ → Bytes
hex_cell byte = zero_filled 2 (digits 16 upper_digit 16 byte) ++ (0x20 ∷ [])

-- The loop over the columns of a line from column `i` on, `left` of them, where `bytes` begins at
-- the byte of column `i`.
unfoldable pub hex_cells : ℕ → ℕ → Bytes → Bytes
hex_cells i zero bytes = []
hex_cells i (suc left) bytes =
    (if is_empty bytes then 0x20 ∷ 0x20 ∷ 0x20 ∷ [] else hex_cell (get_or bytes 0 0))
    ++ (if i == 7 then 0x20 ∷ [] else [])
    ++ hex_cells (i + 1) left (drop 1 bytes)

unfoldable pub ascii_cells : ℕ → Bytes → Bytes
ascii_cells zero bytes = []
ascii_cells (suc left) [] = 0x20 ∷ ascii_cells left []
ascii_cells (suc left) (byte ∷ bytes) =
    (if leb 0x20 byte && leb byte 0x7E then byte else 0x2E) ∷ ascii_cells left bytes

unfoldable pub hexdump_line : ℕ → Bytes → Bytes
hexdump_line offset bytes =
    offset_text offset
    ++ (0x20 ∷ 0x20 ∷ (hex_cells 0 16 bytes ++ (0x20 ∷ 0x20 ∷ ascii_cells 16 bytes)))

-- The loop over the lines, with `bytes` from `offset` on. Fuel: each line takes a byte at least.
unfoldable pub hexdump_lines : ℕ → ℕ → Bytes → List Bytes
hexdump_lines fuel offset [] = []
hexdump_lines zero offset (b ∷ bytes) = []
hexdump_lines (suc fuel) offset (b ∷ bytes) =
    hexdump_line offset (b ∷ bytes) ∷ hexdump_lines fuel (offset + 16) (drop 16 (b ∷ bytes))

unfoldable pub hexdump : Bytes → List Bytes
hexdump bytes = hexdump_lines (length bytes) 0 bytes
