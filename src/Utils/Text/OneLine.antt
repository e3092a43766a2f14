-- ===== src/Utils/Text/OneLine.antt =====
-- The numbers that the streams of tn5250 write stay on their line, and a block of lines with an
-- indentation of one more is the block with a bar before each line.
use protocol_tn.Base.{
  ℕ, zero, suc, ◌-◌, ◌/◌, ◌%◌, ◌≤◌, Bool, true, false, not, ◌&&◌, List, [], ◌∷◌, ◌++◌, Bytes,
  length, replicate, ◌==◌, ◌≡◌, refl, sym, ap, ◌∙◌, inl, inr, arith, Bool-cases, append_assoc,
}
use Prim.Native.String.{String}
use protocol_tn.Utils.Hex.{lower_digit, upper_digit, digits, to_hex_string_padded_generic}
use protocol_tn.Utils.Binary.{to_binary_padded_generic}
use protocol_tn.Utils.Text.Lines.{codes, named, decimal, bar, prompt, write_lines}

-- No byte ends the line.
abbrev pub one_line : Bytes → Bool
one_line [] = true
one_line (b ∷ bs) = not (b == 0x0A) && one_line bs

pub one_line-append : (xs ys : Bytes) → one_line (xs ++ ys) ≡ (one_line xs && one_line ys)
one_line-append [] ys = refl
one_line-append (x ∷ xs) ys = rw (one_line-append xs ys) (ground arith)

one_line-append-true :
    (xs ys : Bytes) → one_line xs ≡ true → one_line ys ≡ true → one_line (xs ++ ys) ≡ true
one_line-append-true xs ys h k = rw (one_line-append xs ys, h, k) refl

one_line-digits :
    (base : ℕ) (digit : ℕ → ℕ) (f v : ℕ)
    → ((d : ℕ) → 0x30 ≤ digit d)
    → one_line (digits base digit f v) ≡ true
unfolding digits
one_line-digits base digit zero v h = refl
one_line-digits base digit (suc f) v h =
    let last : one_line (digit (v % base) ∷ []) ≡ true = ground (arith, h (v % base)) in
    let rec = one_line-digits base digit f (v / base) h in
    elim (Bool-cases (v / base == 0)) [
      | inl e ↦ rw e last
      | inr e ↦
          rw e
            (one_line-append-true (digits base digit f (v / base)) (digit (v % base) ∷ []) rec last)
    ]

one_line-replicate : (n : ℕ) → one_line (replicate n 0x30) ≡ true
one_line-replicate zero = refl
one_line-replicate (suc n) = one_line-replicate n

lower_digit_shown : (d : ℕ) → 0x30 ≤ lower_digit d
lower_digit_shown d = ground arith

upper_digit_shown : (d : ℕ) → 0x30 ≤ upper_digit d
upper_digit_shown d = ground arith

pub one_line-hex : (v width : ℕ) → one_line (to_hex_string_padded_generic v width) ≡ true
unfolding to_hex_string_padded_generic
one_line-hex v width =
    let ds = digits 16 lower_digit 16 v in
    one_line-append-true (replicate (width - length ds) 0x30) ds
      (one_line-replicate (width - length ds))
      (one_line-digits 16 lower_digit 16 v lower_digit_shown)

pub one_line-decimal : (v : ℕ) → one_line (decimal v) ≡ true
unfolding decimal
one_line-decimal v = one_line-digits 10 upper_digit 20 v upper_digit_shown

pub one_line-binary : (v width : ℕ) → one_line (to_binary_padded_generic v width) ≡ true
unfolding to_binary_padded_generic
one_line-binary v zero = refl
one_line-binary v (suc width) = ground (arith, one_line-binary v width)

-- The names of a switch stay on their line.
abbrev pub one_line_cases : List (ℕ × String) → Bool
one_line_cases [] = true
one_line_cases ((k, name) ∷ cases) = one_line (codes name) && one_line_cases cases

pub one_line-named :
    (cases : List (ℕ × String)) (default : Bytes) (v : ℕ)
    → one_line_cases cases ≡ true
    → one_line default ≡ true
    → one_line (named cases default v) ≡ true
one_line-named [] default v h k = k
one_line-named ((c, name) ∷ cases) default v h k =
    let rec = one_line-named cases default v in ground (arith, rec, h, k)

-- A bar before each line; `start` says that the bytes begin one.
abbrev pub indented : Bool → Bytes → Bytes
indented start [] = []
indented true (b ∷ bs) = bar ++ (b ∷ indented (b == 0x0A) bs)
indented false (b ∷ bs) = b ∷ indented (b == 0x0A) bs

indented_line :
    (text rest : Bytes)
    → one_line text ≡ true
    → indented false (text ++ (0x0A ∷ rest)) ≡ text ++ (0x0A ∷ indented true rest)
indented_line [] rest h = refl
indented_line (b ∷ text) rest h = elim (Bool-cases (b == 0x0A)) [
  | inl e ↦ ground (arith, h, e)
  | inr e ↦ rw e (ap (◌∷◌ b) (indented_line text rest (ground (arith, h, e))))
]

indented_first :
    (text rest : Bytes)
    → one_line text ≡ true
    → indented true (text ++ (0x0A ∷ rest)) ≡ bar ++ (text ++ (0x0A ∷ indented true rest))
indented_first [] rest h = refl
indented_first (b ∷ text) rest h = ap (◌++◌ bar) (indented_line (b ∷ text) rest h)

prompt_first : (n : ℕ) → prompt (suc n) ≡ bar ++ prompt n
unfolding prompt
prompt_first zero = refl
prompt_first (suc n) = ap (λ p. p ++ bar) (prompt_first n) ∙ append_assoc bar (prompt n) bar

one_line-prompt : (n : ℕ) → one_line (prompt n) ≡ true
unfolding prompt
one_line-prompt zero = refl
one_line-prompt (suc n) = one_line-append-true (prompt n) bar (one_line-prompt n) refl

-- A text that a stream writes for each indentation, whose lines are put behind a bar by one more.
abbrev pub Nests : (ℕ → Bytes) → Type 0
Nests f = (n : ℕ) (rest : Bytes) → f (suc n) ++ indented true rest ≡ indented true (f n ++ rest)

pub both-Nests : (f g : ℕ → Bytes) → Nests f → Nests g → Nests (λ n. f n ++ g n)
both-Nests f g h k n rest =
    append_assoc (f (suc n)) (g (suc n)) (indented true rest)
    ∙ ap (◌++◌ (f (suc n))) (k n rest)
    ∙ h n (g n ++ rest)
    ∙ ap (indented true) (sym (append_assoc (f n) (g n) rest))

abbrev pub all_one_line : List Bytes → Bool
all_one_line [] = true
all_one_line (t ∷ ts) = one_line t && all_one_line ts

joined : (p t w r : Bytes) → (p ++ (t ++ (0x0A ∷ w))) ++ r ≡ (p ++ t) ++ (0x0A ∷ (w ++ r))
joined p t w r = simp (append_assoc)

pub write_lines-Nests : (ts : List Bytes) → all_one_line ts ≡ true → Nests (λ n. write_lines n ts)
unfolding write_lines
write_lines-Nests [] h n rest = refl
write_lines-Nests (t ∷ ts) h n rest =
    let both : one_line (prompt n ++ t) ≡ true =
      one_line-append-true (prompt n) t (one_line-prompt n) (ground (arith, h)) in
    let rec = write_lines-Nests ts (ground (arith, h)) n rest in
    joined (prompt (suc n)) t (write_lines (suc n) ts) (indented true rest)
    ∙ rw (prompt_first n, rec)
        (ap (λ p. p ++ (0x0A ∷ indented true (write_lines n ts ++ rest)))
            (append_assoc bar (prompt n) t)
          ∙ append_assoc bar (prompt n ++ t) (0x0A ∷ indented true (write_lines n ts ++ rest))
          ∙ sym (indented_first (prompt n ++ t) (write_lines n ts ++ rest) both)
          ∙ ap (indented true) (sym (joined (prompt n) t (write_lines n ts) rest)))
