-- ===== src/CodePage.antt =====
-- tn5250/codepage/codepage.h and codepage.cpp: EBCDIC code pages. The reverse table, which the code
-- builds at its first use and keeps, is computed at each use here.
pub mod Tables
pub mod Laws
pub mod Names
pub mod Utf8
use protocol_tn.Base.{
  ℕ, zero, suc, ◌+◌, ◌*◌, ◌/◌, ◌%◌, Bool, not, ◌&&◌, ◌||◌, List, [], ◌∷◌, Bytes, replicate, get_or,
  set, length, drop, ltb, ◌==◌, if◌then◌else◌,
}
use protocol_tn.CodePage.Tables.National.{
  init_cp273, init_cp277, init_cp278, init_cp280, init_cp284, init_cp285, init_cp297, init_cp500,
}
use protocol_tn.CodePage.Tables.Eastern.{init_cp870, init_cp420}
use protocol_tn.CodePage.Tables.Southern.{init_cp424, init_cp838}
use protocol_tn.CodePage.Tables.{Table, init_cp037}

pub data PageId : Type 0 where
  cp037 cp273 cp277 cp278 cp280 cp284 cp285 cp297 cp500 cp870 cp420 cp424 cp838 : PageId

-- The number of a code page: the value of its enumerator.
abbrev pub number : PageId → ℕ
number cp037 = 37
number cp273 = 273
number cp277 = 277
number cp278 = 278
number cp280 = 280
number cp284 = 284
number cp285 = 285
number cp297 = 297
number cp500 = 500
number cp870 = 870
number cp420 = 420
number cp424 = 424
number cp838 = 838

-- n values from i on.
count_up : ℕ → ℕ → Table
count_up zero i = []
count_up (suc n) i = i ∷ count_up n (i + 1)

-- The control range as it is, a blank at 0x40 and 0 elsewhere.
unfoldable pub blank_table : Table
unfolding count_up
blank_table = set (append (count_up 0x40 0) (replicate 0xC0 0)) 0x40 0x0020
  where
    append : Table → Table → Table
    append [] u = u
    append (x ∷ t) u = x ∷ append t u

unfoldable pub to_unicode_table : PageId → Table
to_unicode_table cp037 = init_cp037 blank_table
to_unicode_table cp273 = init_cp273 blank_table
to_unicode_table cp277 = init_cp277 blank_table
to_unicode_table cp278 = init_cp278 blank_table
to_unicode_table cp280 = init_cp280 blank_table
to_unicode_table cp284 = init_cp284 blank_table
to_unicode_table cp285 = init_cp285 blank_table
to_unicode_table cp297 = init_cp297 blank_table
to_unicode_table cp500 = init_cp500 blank_table
to_unicode_table cp870 = init_cp870 blank_table
to_unicode_table cp420 = init_cp420 blank_table
to_unicode_table cp424 = init_cp424 blank_table
to_unicode_table cp838 = init_cp838 blank_table

-- U+FFFD stands for a byte that the page does not map.
unfoldable pub to_unicode_in : Table → ℕ → ℕ
to_unicode_in t ebcdic =
    let u = get_or t ebcdic 0 in if (u == 0) && not (ebcdic == 0) then 0xFFFD else u

-- m_fromUnicodeTable[code] after buildReverseTable: the last byte from i on that the table sends to
-- `code`, or `found`.
unfoldable pub reverse_lookup : Table → ℕ → ℕ → ℕ → ℕ
reverse_lookup [] i code found = found
reverse_lookup (u ∷ t) i code found = reverse_lookup t (i + 1) code (if u == code then i else found)

-- An EBCDIC blank stands for a character that the page does not have.
unfoldable pub from_unicode_in : Table → ℕ → ℕ
from_unicode_in t ch =
    let result = reverse_lookup t 0 ch 0 in
    if ltb 0xFFFF ch then 0x40 else if not (result == 0) || (ch == 0) then result else 0x40

unfoldable pub to_unicode : PageId → ℕ → ℕ
to_unicode id = to_unicode_in (to_unicode_table id)

unfoldable pub from_unicode : PageId → ℕ → ℕ
from_unicode id = from_unicode_in (to_unicode_table id)

-- A continuation byte, if the text has one there: cp = (cp << 6) | (b & 0x3F).
abbrev pub continue : ℕ → Bytes → ℕ → ℕ
continue cp utf8 k = if ltb k (length utf8) then cp * 64 + get_or utf8 k 0 % 64 else cp

-- The code point at the head of a non-empty text, and the bytes that it takes.
unfoldable pub decode_utf8 : ℕ → Bytes → ℕ × ℕ
decode_utf8 c utf8 =
    if ltb c 0x80
    then (c, 1)
    else if c / 32 % 8 == 6
    then (continue (c % 32) utf8 1, 2)
    else if c / 16 % 16 == 14
    then (continue (continue (c % 16) utf8 1) utf8 2, 3)
    else if c / 8 % 32 == 30
    then (continue (continue (continue (c % 8) utf8 1) utf8 2) utf8 3, 4)
    else (0xFFFD, 1)

-- Fuel: each character takes a byte at least.
unfoldable pub from_unicode_loop : Table → ℕ → Bytes → Bytes
from_unicode_loop t zero utf8 = []
from_unicode_loop t (suc fuel) [] = []
from_unicode_loop t (suc fuel) (c ∷ utf8) =
    let (cp, n) = decode_utf8 c (c ∷ utf8) in
    from_unicode_in t cp ∷ from_unicode_loop t fuel (drop n (c ∷ utf8))

unfoldable pub from_unicode_string : PageId → Bytes → Bytes
from_unicode_string id utf8 = from_unicode_loop (to_unicode_table id) (length utf8) utf8
