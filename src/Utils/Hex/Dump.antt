-- ===== src/Utils/Hex/Dump.antt =====
-- hexdump: its lines, and the bytes read back from them.
use protocol_tn.Base.{
  ℕ, zero, suc, ◌+◌, List, [], ◌∷◌, ◌++◌, Bytes, IsByte, IsByte, take, drop, get_or, ◌==◌,
  if◌then◌else◌,
}
use protocol_tn.Utils.Hex.Laws.{hex_value}

-- The bytes of the hexadecimal columns of a line from column `i` on, `left` of them.
abbrev pub read_cells : ℕ → ℕ → Bytes → Bytes
read_cells i zero line = []
read_cells i (suc left) line =
    let more = read_cells (i + 1) left (drop (if i == 7 then 4 else 3) line) in
    if get_or line 0 0 == 0x20 then [] else hex_value 0 (take 2 line) ∷ more

-- The hexadecimal columns begin behind 13 characters.
abbrev pub undump : List Bytes → Bytes
undump [] = []
undump (line ∷ lines) = read_cells 0 16 (drop 13 line) ++ undump lines
