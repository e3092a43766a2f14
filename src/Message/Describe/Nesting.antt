-- ===== src/Message/Describe/Nesting.antt =====
-- What describe writes with an indentation of one more.
use protocol_tn.Base.{
  ℕ, suc, Bool, true, not, ◌&&◌, List, [], ◌∷◌, ◌++◌, ◌==◌, ◌≡◌, refl, sym, ap, ◌∙◌, arith,
  append-nil,
}
use protocol_tn.Utils.Hex.{to_hex_string_padded_2, to_hex_string_padded_4}
use protocol_tn.Utils.Text.Lines.{codes, write_lines}
use protocol_tn.Utils.Text.OneLine.{
  one_line, one_line-append, one_line-hex, one_line-decimal, one_line-binary, one_line-named,
  indented, Nests, both-Nests, write_lines-Nests,
}
use protocol_tn.Message.Order.{Order, soh, ic, ra, sba, sf}
use protocol_tn.Message.Command.{Command, cs, wtd, rmf}
use protocol_tn.Message.Command.WriteToDisplay.{WriteToDisplay}
use protocol_tn.Message.Record.{Message}
use protocol_tn.Message.Describe.Names.{
  unknown, opcode_names, opcode_description, record_type_names, record_type_description,
  command_description, order_description,
}
use protocol_tn.Message.Describe.{
  ic_lines, ra_lines, sba_lines, sf_lines, soh_lines, describe_order, describe_orders, cs_lines,
  rmf_lines, wtd_head, closing, describe_wtd, describe_command, describe_commands, header_lines,
  message_fields, describe, control_words_shown,
}

-- The fields that are written as characters have no line feed.
abbrev pub order_on_line : Order → Bool
order_on_line (soh o) = not (o.header_length == 0x0A)
order_on_line (ic o) = not (o.row_address == 0x0A) && not (o.column_address == 0x0A)
order_on_line (ra o) = one_line o.repeated_character
order_on_line (sba o) = one_line o.repeated_character
order_on_line (sf o) = one_line o.repeated_character

abbrev pub orders_on_line : List Order → Bool
orders_on_line [] = true
orders_on_line (o ∷ os) = order_on_line o && orders_on_line os

abbrev pub commands_on_line : List Command → Bool
commands_on_line [] = true
commands_on_line (wtd c ∷ rest) = orders_on_line c.orders && commands_on_line rest
commands_on_line (c ∷ rest) = commands_on_line rest

opcode_on_line : (v : ℕ) → one_line (opcode_description v) ≡ true
unfolding opcode_description
opcode_on_line v =
    one_line-named opcode_names (unknown (to_hex_string_padded_2 v)) v refl
      (simp (one_line-append, one_line-hex))

record_type_on_line : (v : ℕ) → one_line (record_type_description v) ≡ true
unfolding record_type_description
record_type_on_line v =
    one_line-named record_type_names (unknown (to_hex_string_padded_4 v)) v refl
      (simp (one_line-append, one_line-hex))

ruleset on_line = (
  one_line-append, one_line-hex, one_line-decimal, one_line-binary, opcode_on_line,
  record_type_on_line,
)

control_words_on_line : (ws : List ℕ) → one_line (control_words_shown ws) ≡ true
control_words_on_line [] = refl
control_words_on_line (w ∷ ws) = simp (on_line, control_words_on_line ws)

order_lines_hold : (o : Order) → order_on_line o ≡ true → Nests (λ n. describe_order n o)
unfolding describe_order order_description
order_lines_hold (ic o) h = write_lines-Nests (ic_lines o) (simp (on_line) (ground (arith, h)))
order_lines_hold (soh o) h = write_lines-Nests (soh_lines o) (simp (on_line) (ground (arith, h)))
order_lines_hold (ra o) h = write_lines-Nests (ra_lines o) (simp (on_line, h))
order_lines_hold (sba o) h = write_lines-Nests (sba_lines o) (simp (on_line, h))
order_lines_hold (sf o) h =
    write_lines-Nests (sf_lines o) (simp (on_line, h, control_words_on_line o.control_words))

none-Nests : Nests (λ n. [])
none-Nests n rest = refl

orders_hold : (os : List Order) → orders_on_line os ≡ true → Nests (λ n. describe_orders n os)
unfolding describe_orders
orders_hold [] h = none-Nests
orders_hold (o ∷ os) h =
    both-Nests (λ n. describe_order n o) (λ n. describe_orders n os)
      (order_lines_hold o (ground (arith, h))) (orders_hold os (ground (arith, h)))

closing-Nests : Nests (λ n. write_lines n closing)
closing-Nests = write_lines-Nests closing refl

wtd_hold : (c : WriteToDisplay) → orders_on_line c.orders ≡ true → Nests (λ n. describe_wtd n c)
unfolding describe_wtd command_description
wtd_hold c h =
    both-Nests (λ n. write_lines n (wtd_head c))
      (λ n. describe_orders (suc n) c.orders ++ write_lines n closing)
      (write_lines-Nests (wtd_head c) (simp (on_line)))
      (both-Nests (λ n. describe_orders (suc n) c.orders) (λ n. write_lines n closing)
        (λ n. orders_hold c.orders h (suc n)) closing-Nests)

commands_hold :
    (cs : List Command) → commands_on_line cs ≡ true → Nests (λ n. describe_commands n cs)
unfolding describe_commands describe_command command_description
commands_hold [] h = none-Nests
commands_hold (cs c ∷ rest) h =
    both-Nests (λ n. write_lines n (cs_lines c)) (λ n. describe_commands n rest)
      (write_lines-Nests (cs_lines c) (simp (on_line))) (commands_hold rest h)
commands_hold (wtd c ∷ rest) h =
    both-Nests (λ n. describe_wtd n c) (λ n. describe_commands n rest)
      (wtd_hold c (ground (arith, h))) (commands_hold rest (ground (arith, h)))
commands_hold (rmf c ∷ rest) h =
    both-Nests (λ n. write_lines n (rmf_lines c)) (λ n. describe_commands n rest)
      (write_lines-Nests (rmf_lines c) (simp (on_line))) (commands_hold rest h)

describe-Nests : (m : Message) → commands_on_line m.commands ≡ true → Nests (λ n. describe n m)
unfolding describe
describe-Nests m h =
    both-Nests (λ n. write_lines n (codes "<5250Message>" ∷ [])) _
      (write_lines-Nests (codes "<5250Message>" ∷ []) refl)
      (both-Nests (λ n. write_lines (suc n) (header_lines m.header)) _
        (λ n. write_lines-Nests (header_lines m.header) (simp (on_line)) (suc n))
        (both-Nests (λ n. write_lines n (message_fields m)) _
          (write_lines-Nests (message_fields m) (simp (on_line)))
          (both-Nests (λ n. describe_commands (suc n) m.commands) (λ n. write_lines n closing)
            (λ n. commands_hold m.commands h (suc n)) closing-Nests)))

-- Where no order has a line feed among the fields that describe writes as characters, a message
-- described with an indentation of one more is its description with a bar before each line.
pub describe-indented :
    (indent : ℕ) (m : Message)
    → commands_on_line m.commands ≡ true
    → describe (suc indent) m ≡ indented true (describe indent m)
describe-indented indent m h =
    sym (append-nil (describe (suc indent) m))
    ∙ describe-Nests m h indent []
    ∙ ap (indented true) (append-nil (describe indent m))
