-- ===== src/Names.antt =====
-- The texts that name codes tell the codes apart: Telnet's commands and options, the operation
-- codes, commands and orders of a message, and its record types.
use protocol_tn.Base.{
  ℕ, zero, suc, ◌^◌, ◌<◌, Bool, true, false, ◌&&◌, List, [], ◌∷◌, Bytes, take, drop, get_or, ◌==◌,
  if◌then◌else◌, ◌≡◌, refl, sym, ap, ◌∙◌, ◌≢◌, inl, inr, arith, Bool-cases, ==_iff, take_prefix,
}
use Prim.Native.String.{String}
use protocol_tn.Utils.Hex.Laws.{hex_value, hex_value-to_hex_string_padded_generic}
use protocol_tn.Utils.Hex.{to_hex_string_padded_4}
use protocol_tn.Message.Header.{general_data_stream}
use protocol_tn.Utils.Hex.{to_hex_string_padded_generic, digits}
use protocol_tn.Utils.Text.Lines.{codes, unknown_upper}
use protocol_tn.Telnet.Names.{telnet_command_to_string, telnet_option_to_string, option_names}
use protocol_tn.Telnet.Names as TelnetNames
use protocol_tn.Message.Describe.Names.{
  opcode_names, opcode_description, command_names, command_description, order_names,
  order_description, record_type_description,
}

same_text : Bytes → Bytes → Bool
same_text [] [] = true
same_text [] (y ∷ ys) = false
same_text (x ∷ xs) [] = false
same_text (x ∷ xs) (y ∷ ys) = (x == y) && same_text xs ys

-- The code with the name `text`, or what `otherwise` reads from the text.
read_name : List (ℕ × String) → (Bytes → ℕ) → Bytes → ℕ
read_name [] otherwise text = otherwise text
read_name ((k, name) ∷ cases) otherwise text =
    if same_text (codes name) text then k else read_name cases otherwise text

all_below : (ℕ → Bool) → ℕ → Bool
all_below p zero = true
all_below p (suc n) = p n && all_below p n

all_below_holds : (p : ℕ → Bool) (n k : ℕ) → all_below p n ≡ true → k < n → p k ≡ true
unfolding all_below
all_below_holds p zero k h l = absurd (omega arith)
all_below_holds p (suc n) k h l = elim (Bool-cases (k == n)) [
  | inl e ↦ rw ((==_iff k n).0 e) (ground (arith, h))
  | inr e ↦ all_below_holds p n k (ground (arith, h)) (ground (arith, e, l, ==_iff k n))
]

-- A text of a byte that can be read back is the text of no other byte.
apart :
    (f : ℕ → Bytes) (read : Bytes → ℕ)
    → all_below (λ v. read (f v) == v) 256 ≡ true
    → (a b : ℕ) → a < 256
    → b < 256
    → f a ≡ f b
    → a ≡ b
apart f read h a b p q e =
    sym ((==_iff (read (f a)) a).0 (all_below_holds (λ v. read (f v) == v) 256 a h p))
    ∙ ap read e
    ∙ (==_iff (read (f b)) b).0 (all_below_holds (λ v. read (f v) == v) 256 b h q)

-- Behind "Unknown (0x" and behind "UNKNOWN(0x".
read_digits : ℕ → Bytes → ℕ
read_digits start text = hex_value 0 (take 2 (drop start text))

read_character : Bytes → ℕ
read_character text = get_or text 12 0

opcodes_read :
    all_below (λ v. read_name opcode_names (read_digits 11) (opcode_description v) == v) 256 ≡ true
unfolding all_below read_name read_digits same_text opcode_description to_hex_string_padded_generic
    digits
opcodes_read = refl

commands_read :
    all_below (λ v. read_name command_names read_character (command_description v) == v) 256 ≡ true
unfolding all_below read_name read_character same_text command_description
commands_read = refl

orders_read :
    all_below (λ v. read_name order_names read_character (order_description v) == v) 256 ≡ true
unfolding all_below read_name read_character same_text order_description
orders_read = refl

telnet_commands_read :
    all_below
      (λ v. read_name TelnetNames.command_names (read_digits 10) (telnet_command_to_string v) == v)
      256
    ≡ true
unfolding all_below read_name read_digits same_text telnet_command_to_string unknown_upper digits
telnet_commands_read = refl

telnet_options_read :
    all_below (λ v. read_name option_names (read_digits 10) (telnet_option_to_string v) == v) 256
    ≡ true
unfolding all_below read_name read_digits same_text telnet_option_to_string unknown_upper digits
telnet_options_read = refl

read_record_type : Bytes → ℕ
read_record_type text =
    if same_text (codes "General Data Stream") text
    then general_data_stream
    else hex_value 0 (take 4 (drop 11 text))

record_type_read : (v : ℕ) → v < 2 ^ 16 → read_record_type (record_type_description v) ≡ v
unfolding read_record_type record_type_description same_text
record_type_read v h =
    let (l, e) = hex_value-to_hex_string_padded_generic v 4 (omega arith) (omega arith) h in
    elim (Bool-cases (v == general_data_stream)) [
      | inl g ↦ rw g (sym ((==_iff v general_data_stream).0 g))
      | inr g ↦ rw (g, take_prefix 4 (to_hex_string_padded_4 v) (codes ")") (sym l)) e
    ]

-- Two different bytes have different texts, as Telnet commands, as Telnet options, as operation codes,
-- as commands and as orders, and so have two different 16-bit numbers as record types: no name stands
-- for two codes, and no code without a name is shown like another.
pub descriptions_differ :
    (a b c d : ℕ)
    → a < 256
    → b < 256
    → a ≢ b
    → c < 2 ^ 16
    → d < 2 ^ 16
    → c ≢ d
    → (telnet_command_to_string a ≢ telnet_command_to_string b)
      × (telnet_option_to_string a ≢ telnet_option_to_string b)
      × (opcode_description a ≢ opcode_description b)
      × (command_description a ≢ command_description b)
      × (order_description a ≢ order_description b)
      × (record_type_description c ≢ record_type_description d)
descriptions_differ a b c d p q n r s m = (
  λ e. n (
      apart telnet_command_to_string (read_name TelnetNames.command_names (read_digits 10))
        telnet_commands_read a b p q e),
  λ e. n (
      apart telnet_option_to_string (read_name option_names (read_digits 10)) telnet_options_read a
        b p q e),
  λ e.
      n (apart opcode_description (read_name opcode_names (read_digits 11)) opcodes_read a b p q e),
  λ e.
      n (
        apart command_description (read_name command_names read_character) commands_read a b p q e),
  λ e. n (apart order_description (read_name order_names read_character) orders_read a b p q e),
  λ e. m (sym (record_type_read c r) ∙ ap read_record_type e ∙ record_type_read d s),
)
