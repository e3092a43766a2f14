-- ===== src/Message/Command/Reads.antt =====
-- The commands that are marshalled are unmarshalled again, and what a command takes of the buffer.
use protocol_tn.Base.{
  ℕ, suc, ◌+◌, ◌≤◌, false, List, [], ◌∷◌, ◌++◌, Bytes, All, is_empty, length, drop, get_or, ltb,
  ◌≡◌, refl, sym, ap, ◌∙◌, inl, inr, arith, Bool-cases, length-drop, append-nil, ltb→ge, ge→ltb,
}
use protocol_tn.Message.Result.{Result, ok, err}
use protocol_tn.Message.Order.InsertCursor
use protocol_tn.Message.Order.RepeatToAddress
use protocol_tn.Message.Order.SetBufferAddress
use protocol_tn.Message.Order.StartField
use protocol_tn.Message.Order.StartOfHeader
use protocol_tn.Message.Order.{Order, soh, ic, ra, sba, sf, unmarshal_orders, marshal_orders}
use protocol_tn.Message.Order.Reads.{IsOrder}
use protocol_tn.Message.Order.Loop.{TakesWithin}
use protocol_tn.Message.Order.Sequence.{unmarshal_orders-marshal_orders}
use protocol_tn.Message.Command.Code.{escape, clear_unit, write_to_display, read_mdt_fields}
use protocol_tn.Message.Command.ClearScreen
use protocol_tn.Message.Command.ReadMdtFields
use protocol_tn.Message.Command.WriteToDisplay
use protocol_tn.Message.Command.{
  Command, cs, wtd, rmf, as_command, unmarshal_command, marshal_command,
}

-- The codes are those of the classes, and only a display write has orders.
abbrev pub IsCommand : Command → Type 0
IsCommand (cs c) = (c.code ≡ clear_unit) × (c.orders ≡ [])
IsCommand (rmf c) = (c.code ≡ read_mdt_fields) × (c.orders ≡ [])
IsCommand (wtd c) = (c.code ≡ write_to_display) × All IsOrder c.orders

-- Nothing is behind a display write.
abbrev pub Precedes : Command → Bytes → Type 0
Precedes (cs c) rest = Unit
Precedes (rmf c) rest = Unit
Precedes (wtd c) rest = rest ≡ []

as_command_within {ℓ} :
    {A : Type ℓ} (f : A → Command) (n : ℕ) (r : Result (A × ℕ))
    → TakesWithin n r
    → TakesWithin n (as_command f r)
as_command_within f n (ok (o, k)) h = h
as_command_within f n (err e) h = tt

cs_within : (bs : Bytes) → TakesWithin (length bs) (ClearScreen.unmarshal bs)
unfolding ClearScreen.unmarshal
cs_within bs = ground arith

rmf_within : (bs : Bytes) → TakesWithin (length bs) (ReadMdtFields.unmarshal bs)
unfolding ReadMdtFields.unmarshal
rmf_within bs = ground arith

with_orders_within :
    (f : List Order → WriteToDisplay.WriteToDisplay) (n k : ℕ) (r : Result (List Order))
    → 1 ≤ k
    → k ≤ n
    → TakesWithin n (WriteToDisplay.with_orders f k r)
with_orders_within f n k (ok os) lo hi = (lo, hi)
with_orders_within f n k (err e) lo hi = tt

wtd_within : (bs : Bytes) → TakesWithin (length bs) (WriteToDisplay.unmarshal bs)
unfolding WriteToDisplay.unmarshal
wtd_within bs =
    let sub = drop 4 bs in
    let command : List Order → WriteToDisplay.WriteToDisplay = λ os. record {
      code = get_or bs 1 0;
      orders = os;
      control1 = get_or bs 2 0;
      control2 = get_or bs 3 0;
    } in
    elim (Bool-cases (ltb (length bs) 4)) [
      | inl e ↦ rw e tt
      | inr e ↦
          let ge = ltb→ge (length bs) 4 e in
          ground (
            arith,
            length-drop 4 bs,
            with_orders_within command (length bs) (4 + length sub)
                (WriteToDisplay.some_orders (unmarshal_orders sub)) (omega arith)
                (omega (arith, length-drop 4 bs)),
          )
    ]

-- A command that is read takes a byte at least, and none beyond the end of the buffer.
pub unmarshal_command-TakesWithin : (bs : Bytes) → TakesWithin (length bs) (unmarshal_command bs)
unfolding unmarshal_command
unmarshal_command-TakesWithin bs = ground (
  arith,
  as_command_within cs _ _ (cs_within bs),
  as_command_within wtd _ _ (wtd_within bs),
  as_command_within rmf _ _ (rmf_within bs),
)

cs_read :
    (c : ClearScreen.ClearScreen) (rest : Bytes)
    → IsCommand (cs c)
    → ClearScreen.unmarshal (ClearScreen.marshal c ++ rest) ≡ ok (c, 2)
unfolding ClearScreen.unmarshal
cs_read c rest (e, o) =
    rw (ge→ltb (suc (suc (length rest))) 2 (omega arith))
      (λ i. ok (record { code = sym e i; orders = sym o i }, 2))

rmf_read :
    (c : ReadMdtFields.ReadMdtFields) (rest : Bytes)
    → IsCommand (rmf c)
    → ReadMdtFields.unmarshal (ReadMdtFields.marshal c ++ rest) ≡ ok (c, 4)
unfolding ReadMdtFields.unmarshal
rmf_read c rest (e, o) =
    rw (ge→ltb (suc (suc (suc (suc (length rest))))) 4 (omega arith))
      (λ i. ok (record c { code = sym e i; orders = sym o i }, 4))

-- The orders of a list that is not empty are bytes.
marshal_orders-nonempty : (o : Order) (os : List Order) → is_empty (marshal_orders (o ∷ os)) ≡ false
unfolding StartOfHeader.marshal InsertCursor.marshal RepeatToAddress.marshal
    SetBufferAddress.marshal StartField.marshal
marshal_orders-nonempty (soh o) os = refl
marshal_orders-nonempty (ic o) os = refl
marshal_orders-nonempty (ra o) os = refl
marshal_orders-nonempty (sba o) os = refl
marshal_orders-nonempty (sf o) os = refl

wtd_read :
    (c : WriteToDisplay.WriteToDisplay) (os : List Order)
    → c.orders ≡ os
    → c.code ≡ write_to_display
    → All IsOrder os
    → WriteToDisplay.unmarshal
        (escape ∷ write_to_display ∷ c.control1 ∷ c.control2 ∷ marshal_orders os)
      ≡ ok (c, 4 + length (marshal_orders os))
unfolding WriteToDisplay.unmarshal
wtd_read c [] o e h = λ i. ok (record c { code = sym e i; orders = sym o i }, 4)
wtd_read c (x ∷ os) o e h =
    rw
      (
        marshal_orders-nonempty x os,
        unmarshal_orders-marshal_orders (x ∷ os) h,
        ge→ltb (suc (suc (suc (suc (length (marshal_orders (x ∷ os))))))) 4 (omega arith),
      )
      (λ i.
        ok (record c { code = sym e i; orders = sym o i }, 4 + length (marshal_orders (x ∷ os))))

-- A well-formed command that is marshalled is unmarshalled again, and takes its own bytes. Anything
-- may stand behind it, but nothing behind a display write.
pub unmarshal_command-marshal_command :
    (c : Command) (rest : Bytes)
    → IsCommand c
    → Precedes c rest
    → unmarshal_command (marshal_command c ++ rest) ≡ ok (c, length (marshal_command c))
unfolding unmarshal_command WriteToDisplay.marshal
unmarshal_command-marshal_command (cs c) rest h p = ground (arith, cs_read c rest h)
unmarshal_command-marshal_command (rmf c) rest h p = ground (arith, rmf_read c rest h)
unmarshal_command-marshal_command (wtd c) rest h p =
    let bs = escape ∷ write_to_display ∷ c.control1 ∷ c.control2 ∷ marshal_orders c.orders in
    let e : bs ++ rest ≡ bs = ap (◌++◌ bs) p ∙ append-nil bs in
    rw e (ground (arith, wtd_read c c.orders refl h.0 h.1))
