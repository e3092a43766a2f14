-- ===== src/Message/Agreement/Orders.antt =====
-- The orders that tn5250/message builds, as the grammar of the data stream has them.
use protocol_tn.Base.{
  ℕ, ◌/◌, ◌%◌, ◌^◌, List, [], ◌∷◌, ◌++◌, map, Bytes, All, length, get_or, ◌≡◌, refl, sym, ap, ◌∙◌,
  inl, append_assoc, subst,
}
use protocol_tn.Decoder.Grammar.{
  DisplayOrder, text, address, to_address, header, start_field, IsText, order_bytes, orders_bytes,
  AreOrders,
}
use protocol_tn.Decoder.Grammar
use protocol_tn.Message.Order.{Order, soh, ic, ra, sba, sf, marshal_order, marshal_orders}
use protocol_tn.Message.Order.RepeatToAddress
use protocol_tn.Message.Order.SetBufferAddress
use protocol_tn.Message.Order.StartField
use protocol_tn.Message.Order.StartOfHeader
use protocol_tn.Message.Order.Reads.{IsOrder, IsControlWord}

-- The bytes of the orders of the grammar that stand for an order of a message. An insert cursor has none:
-- its code is that of Erase to Address in the grammar.
abbrev pub to_display : Order → List DisplayOrder
to_display (soh o) =
    header (
      o.flags ∷ o.flags_reserved ∷ o.resequence_to_field ∷ o.error_row ∷ o.command_key_switch1
      ∷ o.command_key_switch2 ∷ o.command_key_switch3 ∷ [])
    ∷ []
to_display (ic o) = []
to_display (ra o) =
    to_address o.code o.row_address o.column_address (get_or o.repeated_character 0 0) ∷ []
to_display (sba o) = address o.code o.row_address o.column_address ∷ map text o.repeated_character
to_display (sf o) =
    let n = length o.repeated_character % 2 ^ 16 in
    start_field o.format_word1 o.format_word2 (map (λ w. (w / 256, w % 256)) o.control_words)
      o.attributes (n / 256 % 256) (n % 256)
    ∷ map text o.repeated_character

-- A header of seven bytes, no insert cursor, and characters that begin no order of either reading.
abbrev pub IsShared : Order → Type 0
IsShared (soh o) = o.header_length ≡ 7
IsShared (ic o) = ⊥
IsShared (ra o) = Unit
IsShared (sba o) = All IsText o.repeated_character
IsShared (sf o) = All IsText o.repeated_character

text_bytes : (xs rest : Bytes) → orders_bytes (map text xs) rest ≡ xs ++ rest
text_bytes [] rest = refl
text_bytes (x ∷ xs) rest = ap (◌∷◌ x) (text_bytes xs rest)

text-AreOrders : (xs rest : Bytes) → All IsText xs → AreOrders (map text xs) rest
text-AreOrders [] rest h = tt
text-AreOrders (x ∷ xs) rest (h, hs) = (h, text-AreOrders xs rest hs)

words_match :
    (ws : List ℕ) → Grammar.word_bytes (map (λ w. (w / 256, w % 256)) ws) ≡ StartField.word_bytes ws
words_match [] = refl
words_match (w ∷ ws) = ap (λ bs. w / 256 ∷ w % 256 ∷ bs) (words_match ws)

words-IsAttribute :
    (ws : List ℕ)
    → All IsControlWord ws
    → All (λ (w : ℕ × ℕ). ¬ (w.0 / 32 % 8 ≡ 1)) (map (λ w. (w / 256, w % 256)) ws)
words-IsAttribute [] h = tt
words-IsAttribute (w ∷ ws) (h, hs) = (h.no_attribute, words-IsAttribute ws hs)

to_display_bytes :
    (o : Order) (rest : Bytes)
    → IsOrder o
    → IsShared o
    → orders_bytes (to_display o) rest ≡ marshal_order o ++ rest
unfolding StartOfHeader.marshal RepeatToAddress.marshal SetBufferAddress.marshal StartField.marshal
to_display_bytes (soh o) rest h s = rw (h, s) refl
to_display_bytes (ra o) rest h s = refl
to_display_bytes (ic o) rest h s = absurd s
to_display_bytes (sba o) rest h s =
    ap (λ bs. o.code ∷ o.row_address ∷ o.column_address ∷ bs) (text_bytes o.repeated_character rest)
to_display_bytes (sf o) rest h s =
    let n = length o.repeated_character % 2 ^ 16 in
    let hi = n / 256 % 256 in
    let lo = n % 256 in
    let words = StartField.word_bytes o.control_words in
    rw
      (
        h.0,
        words_match o.control_words,
        text_bytes o.repeated_character rest,
        append_assoc words (o.attributes ∷ hi ∷ lo ∷ []) (o.repeated_character ++ rest),
        append_assoc words (o.attributes ∷ hi ∷ lo ∷ o.repeated_character) rest,
      )
      refl

to_display-AreOrders :
    (o : Order) (rest : Bytes) → IsOrder o → IsShared o → AreOrders (to_display o) rest
to_display-AreOrders (soh o) rest h s = (tt, tt)
to_display-AreOrders (ra o) rest h s = (inl h.0, tt)
to_display-AreOrders (ic o) rest h s = absurd s
to_display-AreOrders (sba o) rest h s = (inl h.0, text-AreOrders o.repeated_character rest s)
to_display-AreOrders (sf o) rest (e, ws, a, l, f) s =
    ((words-IsAttribute o.control_words ws, a), text-AreOrders o.repeated_character rest s)

orders_bytes-append :
    (ds es : List DisplayOrder) (rest : Bytes)
    → orders_bytes (ds ++ es) rest ≡ orders_bytes ds (orders_bytes es rest)
orders_bytes-append [] es rest = refl
orders_bytes-append (d ∷ ds) es rest = ap (◌++◌ (order_bytes d)) (orders_bytes-append ds es rest)

AreOrders-append :
    (ds es : List DisplayOrder) (rest : Bytes)
    → AreOrders ds (orders_bytes es rest)
    → AreOrders es rest
    → AreOrders (ds ++ es) rest
AreOrders-append [] es rest h k = k
AreOrders-append (d ∷ ds) es rest (h, hs) k = (
  subst (Grammar.IsOrder d) (sym (orders_bytes-append ds es rest)) h,
  AreOrders-append ds es rest hs k,
)

abbrev pub to_displays : List Order → List DisplayOrder
to_displays [] = []
to_displays (o ∷ os) = to_display o ++ to_displays os

pub to_displays_bytes :
    (os : List Order)
    → All IsOrder os
    → All IsShared os
    → orders_bytes (to_displays os) [] ≡ marshal_orders os
to_displays_bytes [] h s = refl
to_displays_bytes (o ∷ os) (h, hs) (s, ss) =
    orders_bytes-append (to_display o) (to_displays os) []
    ∙ to_display_bytes o (orders_bytes (to_displays os) []) h s
    ∙ ap (◌++◌ (marshal_order o)) (to_displays_bytes os hs ss)

pub to_displays-AreOrders :
    (os : List Order) → All IsOrder os → All IsShared os → AreOrders (to_displays os) []
to_displays-AreOrders [] h s = tt
to_displays-AreOrders (o ∷ os) (h, hs) (s, ss) =
    AreOrders-append (to_display o) (to_displays os) []
      (to_display-AreOrders o (orders_bytes (to_displays os) []) h s)
      (to_displays-AreOrders os hs ss)
