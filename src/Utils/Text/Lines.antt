-- ===== src/Utils/Text/Lines.antt =====
-- What the streams of tn5250 write: names for codes, numbers, and the indented lines of describe. A
-- std::string is the list of its bytes.
use Prim.Native.Char.{code}
use Prim.Native.String.{String}
use protocol_tn.Base.{ℕ, zero, suc, List, [], ◌∷◌, ◌++◌, Bytes, ◌==◌, if◌then◌else◌}
use protocol_tn.Utils.Hex.{upper_digit, digits, zero_filled}

-- The code points of a literal, which are its bytes: each is ASCII.
abbrev pub codes : String → Bytes
codes String.[] = []
codes (String.◌∷◌ c s) = code c ∷ codes s

-- A switch that returns a literal in each case: the literal of the first case that fits, or what the
-- default gives.
abbrev pub named : List (ℕ × String) → Bytes → ℕ → Bytes
named [] default value = default
named ((k, name) ∷ cases) default value =
    if value == k then codes name else named cases default value

-- An unsigned number of at most 64 bits on a stream.
unfoldable pub decimal : ℕ → Bytes
decimal value = digits 10 upper_digit 20 value

-- "UNKNOWN(0x%02X)" of snprintf.
unfoldable pub unknown_upper : ℕ → Bytes
unknown_upper value =
    codes "UNKNOWN(0x" ++ (zero_filled 2 (digits 16 upper_digit 16 value) ++ codes ")")

-- "  │ ", in UTF-8.
abbrev pub bar : Bytes
bar = 0x20 ∷ 0x20 ∷ 0xE2 ∷ 0x94 ∷ 0x82 ∷ 0x20 ∷ []

-- "  └───"
abbrev pub corner : Bytes
corner =
    0x20 ∷ 0x20 ∷ 0xE2 ∷ 0x94 ∷ 0x94 ∷ 0xE2 ∷ 0x94 ∷ 0x80 ∷ 0xE2 ∷ 0x94 ∷ 0x80 ∷ 0xE2 ∷ 0x94 ∷ 0x80
    ∷ []

-- The loop that fills indentPrompt, for an indentation that is not negative.
unfoldable pub prompt : ℕ → Bytes
prompt zero = []
prompt (suc indent) = prompt indent ++ bar

-- out << indentPrompt << text << "\n", for each text in turn.
unfoldable pub write_lines : ℕ → List Bytes → Bytes
write_lines indent [] = []
write_lines indent (text ∷ texts) = prompt indent ++ (text ++ (0x0A ∷ write_lines indent texts))
