-- ===== src/Handler/Environ/Reader.antt =====
-- A reader of the variables of a NEW-ENVIRON subnegotiation as RFC 1572 has them, behind the IS.
use protocol_tn.Base.{
  ℕ, Bool, true, not, ◌&&◌, ◌||◌, List, [], ◌∷◌, ◌++◌, Bytes, leb, ◌==◌, if◌then◌else◌, ◌≡◌, refl,
  sym, ap, ◌∙◌, inl, inr, arith, Bool-cases, append-nil, append_assoc,
}
use Prim.Native.String.{String}
use protocol_tn.Utils.Text.Lines.{codes}
use protocol_tn.IbmRSeed.{escape_new_environ}
use protocol_tn.Handler.Handshake.{variable}

pub data Mode : Type 0 where
  at_start : Mode
  in_name : Mode
  escaped_name : Mode
  in_value : Mode
  escaped_value : Mode

-- The variables that are complete, and the name and the value of the one that is open.
pub record Reader : Type 0 where
  pub mode : Mode
  pub complete : List (Bytes × Bytes)
  pub name : Bytes
  pub value : Bytes

abbrev with_open : Mode → Reader → List (Bytes × Bytes)
with_open at_start r = r.complete
with_open _ r = r.complete ++ ((r.name, r.value) ∷ [])

abbrev pub variables : Reader → List (Bytes × Bytes)
variables r = with_open r.mode r

abbrev begin : Reader → Reader
begin r = record { mode = in_name; complete = variables r; name = []; value = [] }

-- VAR and USERVAR begin a variable, VALUE ends a name, and ESC takes the byte behind it as it is.
abbrev step_in : Mode → ℕ → Reader → Reader
step_in at_start b r = if (b == 0x00) || (b == 0x03) then begin r else r
step_in in_name b r =
    if (b == 0x00) || (b == 0x03)
    then begin r
    else if b == 0x01
    then record r { mode = in_value }
    else if b == 0x02
    then record r { mode = escaped_name }
    else record r { name = r.name ++ (b ∷ []) }
step_in escaped_name b r = record r { mode = in_name; name = r.name ++ (b ∷ []) }
step_in in_value b r =
    if (b == 0x00) || (b == 0x03)
    then begin r
    else if b == 0x02
    then record r { mode = escaped_value }
    else record r { value = r.value ++ (b ∷ []) }
step_in escaped_value b r = record r { mode = in_value; value = r.value ++ (b ∷ []) }

abbrev run : Bytes → Reader → Reader
run [] r = r
run (b ∷ bs) r = run bs (step_in r.mode b r)

abbrev start : Reader
start = record { mode = at_start; complete = []; name = []; value = [] }

unfoldable pub read_variables : Bytes → List (Bytes × Bytes)
read_variables bs = variables (run bs start)

-- The bytes that need no ESC, and that no IAC is among.
abbrev pub plain : Bytes → Bool
plain [] = true
plain (b ∷ bs) = not (leb b 0x03 || (b == 0xFF)) && plain bs

pub escape_new_environ-plain : (bs : Bytes) → plain bs ≡ true → escape_new_environ bs ≡ bs
unfolding escape_new_environ
escape_new_environ-plain [] h = refl
escape_new_environ-plain (b ∷ bs) h = elim (Bool-cases (leb b 0x03 || (b == 0xFF))) [
  | inl e ↦ ground (arith, h, e)
  | inr e ↦ rw e (ap (◌∷◌ b) (escape_new_environ-plain bs (ground (arith, h, e))))
]

-- A name, and a value, that has been read so far.
abbrev naming : List (Bytes × Bytes) → Bytes → Reader
naming vs name = record { mode = in_name; complete = vs; name = name; value = [] }

abbrev valuing : List (Bytes × Bytes) → Bytes → Bytes → Reader
valuing vs name value = record { mode = in_value; complete = vs; name = name; value = value }

run-append : (xs ys : Bytes) (r : Reader) → run (xs ++ ys) r ≡ run ys (run xs r)
run-append [] ys r = refl
run-append (x ∷ xs) ys r = run-append xs ys (step_in r.mode x r)

name_read :
    (xs : Bytes) (vs : List (Bytes × Bytes)) (name : Bytes)
    → plain xs ≡ true
    → run xs (naming vs name) ≡ naming vs (name ++ xs)
name_read [] vs name h = ap (naming vs) (sym (append-nil name))
name_read (x ∷ xs) vs name h =
    let stepped : step_in in_name x (naming vs name) ≡ naming vs (name ++ (x ∷ [])) =
      ground (arith, h) in
    ap (run xs) stepped
    ∙ name_read xs vs (name ++ (x ∷ [])) (ground (arith, h))
    ∙ ap (naming vs) (append_assoc name (x ∷ []) xs)

value_read :
    (v : Bytes) (vs : List (Bytes × Bytes)) (name value : Bytes)
    → run (escape_new_environ v) (valuing vs name value) ≡ valuing vs name (value ++ v)
unfolding escape_new_environ
value_read [] vs name value = ap (valuing vs name) (sym (append-nil value))
value_read (b ∷ v) vs name value =
    let rec =
      value_read v vs name (value ++ (b ∷ []))
      ∙ ap (valuing vs name) (append_assoc value (b ∷ []) v) in
    elim (Bool-cases (leb b 0x03 || (b == 0xFF))) [
      | inl e ↦ rw e rec
      | inr e ↦
          let stepped : step_in in_value b (valuing vs name value)
              ≡ valuing vs name (value ++ (b ∷ [])) =
            ground (arith, e) in
          rw e (ap (run (escape_new_environ v)) stepped ∙ rec)
    ]

-- The variables with their values escaped, one behind the other.
abbrev pub encode : List (String × Bytes) → Bytes
encode [] = []
encode ((name, v) ∷ vs) = variable name (escape_new_environ v) ++ encode vs

abbrev pub plain_names : List (String × Bytes) → Bool
plain_names [] = true
plain_names ((name, v) ∷ vs) = plain (codes name) && plain_names vs

abbrev pub named : List (String × Bytes) → List (Bytes × Bytes)
named [] = []
named ((name, v) ∷ vs) = (codes name, v) ∷ named vs

-- USERVAR begins a variable here.
abbrev Opens : Reader → Type 0
Opens r = step_in r.mode 0x03 r ≡ begin r

variable_read :
    (name : String) (v : Bytes) (r : Reader)
    → Opens r
    → plain (codes name) ≡ true
    → run (variable name (escape_new_environ v)) r ≡ valuing (variables r) (codes name) v
variable_read name v r o h =
    ap (run (codes name ++ (0x01 ∷ escape_new_environ v))) o
    ∙ run-append (codes name) (0x01 ∷ escape_new_environ v) (begin r)
    ∙ ap (run (0x01 ∷ escape_new_environ v)) (name_read (codes name) (variables r) [] h)
    ∙ value_read v (variables r) (codes name) []

variables_read :
    (vs : List (String × Bytes)) (r : Reader)
    → Opens r
    → plain_names vs ≡ true
    → variables (run (encode vs) r) ≡ variables r ++ named vs
variables_read [] r o h = sym (append-nil (variables r))
variables_read ((name, v) ∷ vs) r o h =
    ap variables (run-append (variable name (escape_new_environ v)) (encode vs) r)
    ∙ ap (λ s. variables (run (encode vs) s)) (variable_read name v r o (ground (arith, h)))
    ∙ variables_read vs (valuing (variables r) (codes name) v) refl (ground (arith, h))
    ∙ append_assoc (variables r) ((codes name, v) ∷ []) (named vs)

pub read_variables-encode :
    (vs : List (String × Bytes)) → plain_names vs ≡ true → read_variables (encode vs) ≡ named vs
unfolding read_variables
read_variables-encode vs h = variables_read vs start refl h

-- Two variables, and an ESC with nothing behind it.
pub read_variables_cut :
    (a b : String) (v x : Bytes)
    → plain (codes a) ≡ true
    → plain (codes b) ≡ true
    → read_variables
        (variable a (escape_new_environ v) ++ (variable b (escape_new_environ x) ++ (0x02 ∷ [])))
      ≡ (codes a, v) ∷ (codes b, x) ∷ []
unfolding read_variables
read_variables_cut a b v x h k =
    let first = variable a (escape_new_environ v) in
    let second = variable b (escape_new_environ x) in
    let opened = valuing [] (codes a) v in
    ap variables (run-append first (second ++ (0x02 ∷ [])) start)
    ∙ ap (λ s. variables (run (second ++ (0x02 ∷ [])) s)) (variable_read a v start refl h)
    ∙ ap variables (run-append second (0x02 ∷ []) opened)
    ∙ ap (λ s. variables (run (0x02 ∷ []) s)) (variable_read b x opened refl k)
