-- ===== src/Handler/Environ.antt =====
-- The reply of the protocol handler to a NEW-ENVIRON request, as the host reads it: a Telnet client
-- hears the subnegotiation, and a reader of RFC 1572 its variables.
pub mod Reader
pub mod Cut
use protocol_tn.Base.{
  ℕ, zero, suc, ◌+◌, ◌-◌, ◌*◌, ◌/◌, ◌%◌, ◌^◌, ◌≤◌, ◌<◌, min, Bool, true, false, not, ◌&&◌, ◌||◌,
  Option, none, some, List, [], ◌∷◌, ◌++◌, map, Bytes, IsByte, IsBytes, All, All-drop, be16,
  is_empty, length, take, drop, get_or, set, replicate, ltb, leb, ◌==◌, if◌then◌else◌, ◌≡◌, refl,
  sym, ap, ap₂, ◌∙◌, ◌≢◌, inl, inr, ◌⊎◌, arith, Bool-cases, ==_iff, length-append, length-take,
  length-drop, length-replicate, take_append, drop_append, get_or_append, append-nil, append_assoc,
  take-length, drop-length, take_prefix, drop_prefix, subst, take-append-drop, tests, ltb→lt,
  ltb→ge, lt→ltb, ge→ltb,
}
use Prim.Native.String.{String}
use protocol_tn.CodePage.{
  PageId, number, cp037, cp273, cp277, cp278, cp280, cp284, cp285, cp297, cp500, cp870, cp420,
  cp424, cp838,
}
use protocol_tn.Utils.Text.Lines.{codes}
use protocol_tn.IbmRSeed.{escape_new_environ, generate_client_seed}
use protocol_tn.Telnet.Command.{iac, sb, se, new_environ}
use protocol_tn.Telnet.Client.{
  Client, plain_data, subnegotiation_data, on_subnegotiation, call, feed,
}
use protocol_tn.Telnet.Client.Hearing.{heard, hear, hear_all, hear_all-append, IsTidy, heard-feed}
use protocol_tn.Handler.State.{Handler, World}
use protocol_tn.Handler.Handshake.{
  to_decimal, variable, substitute_password, wants_encryption, seed_variables, new_environ_reply,
}
use protocol_tn.Handler.Environ.Reader.{
  read_variables, plain, escape_new_environ-plain, encode, plain_names, named,
  read_variables-encode,
}

-- The seed of the client that the next reply sends.
abbrev pub next_seed : World → Handler → Bytes
next_seed w h = generate_client_seed (w.random_byte h.draws)

abbrev pub sends_password : World → Handler → Bool
sends_password w h = wants_encryption h && not (is_empty (substitute_password w h))

-- The seed and the substitute password, or no seed.
abbrev pub seed_values : World → Handler → List (String × Bytes)
seed_values w h =
    if sends_password w h
    then ("IBMRSEED", next_seed w h) ∷ ("IBMSUBSPW", substitute_password w h) ∷ []
    else ("IBMRSEED", []) ∷ []

-- The variables that the host is to get.
abbrev pub reply_values : World → Handler → List (String × Bytes)
reply_values w h =
    ("DEVNAME", h.config.device_name)
    ∷ (seed_values w h
        ++ (("IBMSUBSVAR", [])
            ∷ ("KBDTYPE", codes "USB")
            ∷ ("CODEPAGE", to_decimal (number h.config.code_page))
            ∷ ("CHARSET", codes "697")
            ∷ []))

abbrev pub no_iac : Bytes → Bool
no_iac [] = true
no_iac (b ∷ bs) = not (b == iac) && no_iac bs

pub no_iac-append : (xs ys : Bytes) → no_iac (xs ++ ys) ≡ (no_iac xs && no_iac ys)
no_iac-append [] ys = refl
no_iac-append (x ∷ xs) ys = rw (no_iac-append xs ys) (ground arith)

pub plain-no_iac : (xs : Bytes) → plain xs ≡ true → no_iac xs ≡ true
plain-no_iac [] h = refl
plain-no_iac (x ∷ xs) h = let rec = plain-no_iac xs in ground (arith, rec, h)

pub no_iac-escape : (xs : Bytes) → no_iac (escape_new_environ xs) ≡ no_iac xs
unfolding escape_new_environ
no_iac-escape [] = refl
no_iac-escape (x ∷ xs) = elim (Bool-cases (leb x 0x03 || (x == 0xFF))) [
  | inl e ↦ rw (e, no_iac-escape xs) refl
  | inr e ↦ rw (e, no_iac-escape xs) refl
]

pub to_decimal-plain : (id : PageId) → plain (to_decimal (number id)) ≡ true
unfolding to_decimal
to_decimal-plain cp037 = refl
to_decimal-plain _ = refl

-- A subnegotiation is heard whole, up to the first IAC.
abbrev pub subnegotiated : ℕ → Bytes → Client → Client
subnegotiated opt body c = record (call (on_subnegotiation opt body) c) {
  sb_opt = opt;
  sb_buffer = [];
  state = plain_data;
}

abbrev collecting : ℕ → Bytes → Client → Client
collecting opt bs c = record c { sb_opt = opt; sb_buffer = bs; state = subnegotiation_data }

body_heard :
    (xs : Bytes) (opt : ℕ) (bs : Bytes) (c : Client)
    → no_iac xs ≡ true
    → hear_all xs (collecting opt bs c) ≡ collecting opt (bs ++ xs) c
unfolding hear_all hear
body_heard [] opt bs c h = ap (λ ys. collecting opt ys c) (sym (append-nil bs))
body_heard (x ∷ xs) opt bs c h = elim (Bool-cases (x == iac)) [
  | inl e ↦ ground (arith, h, e)
  | inr e ↦ rw e (
      body_heard xs opt (bs ++ (x ∷ [])) c (ground (arith, h, e))
      ∙ ap (λ ys. collecting opt ys c) (append_assoc bs (x ∷ []) xs))
]

opened :
    (opt : ℕ) (c : Client)
    → c.state ≡ plain_data
    → hear opt (hear sb (hear iac c)) ≡ collecting opt [] c
unfolding hear
opened opt c h = ground (arith, h)

closed :
    (opt : ℕ) (body : Bytes) (c : Client)
    → hear se (hear iac (collecting opt body c)) ≡ subnegotiated opt body c
unfolding hear
closed opt body c = refl

pub subnegotiation_heard :
    (opt : ℕ) (body rest : Bytes) (c : Client)
    → c.state ≡ plain_data
    → no_iac body ≡ true
    → hear_all (iac ∷ sb ∷ opt ∷ (body ++ (iac ∷ se ∷ rest))) c
      ≡ hear_all rest (subnegotiated opt body c)
unfolding hear_all
subnegotiation_heard opt body rest c h n =
    ap (hear_all (body ++ (iac ∷ se ∷ rest))) (opened opt c h)
    ∙ hear_all-append body (iac ∷ se ∷ rest) (collecting opt [] c)
    ∙ ap (hear_all (iac ∷ se ∷ rest)) (body_heard body opt [] c n)
    ∙ ap (hear_all rest) (closed opt body c)

-- The values of a reply, from whether it has the password, the seed, the password, the device name
-- and the number of the code page.
abbrev pub values : Bool → Bytes → Bytes → Bytes → Bytes → List (String × Bytes)
values sends seed password device page =
    ("DEVNAME", device)
    ∷ ((if sends then ("IBMRSEED", seed) ∷ ("IBMSUBSPW", password) ∷ [] else ("IBMRSEED", []) ∷ [])
        ++ (("IBMSUBSVAR", [])
            ∷ ("KBDTYPE", codes "USB")
            ∷ ("CODEPAGE", page)
            ∷ ("CHARSET", codes "697")
            ∷ []))

-- The same as sendNewEnviron writes it.
abbrev pub written : Bool → Bytes → Bytes → Bytes → Bytes → Bytes
written sends seed password device page =
    variable "DEVNAME" device
    ++ ((if sends
          then variable "IBMRSEED" (escape_new_environ seed)
            ++ variable "IBMSUBSPW" (escape_new_environ password)
          else variable "IBMRSEED" [])
        ++ (variable "IBMSUBSVAR" []
            ++ (variable "KBDTYPE" (codes "USB")
                ++ (variable "CODEPAGE" page
                    ++ (variable "CHARSET" (codes "697") ++ (iac ∷ se ∷ []))))))

written-encode :
    (sends : Bool) (seed password device page : Bytes)
    → escape_new_environ device ≡ device
    → escape_new_environ page ≡ page
    → written sends seed password device page
      ≡ encode (values sends seed password device page) ++ (iac ∷ se ∷ [])
unfolding escape_new_environ
written-encode true seed password device page d p = simp (d, p, append_assoc)
written-encode false seed password device page d p = simp (d, p, append_assoc)

values-plain_names :
    (sends : Bool) (seed password device page : Bytes)
    → plain_names (values sends seed password device page) ≡ true
values-plain_names true seed password device page = refl
values-plain_names false seed password device page = refl

encode-no_iac :
    (sends : Bool) (seed password device page : Bytes)
    → no_iac seed ≡ true
    → no_iac password ≡ true
    → no_iac device ≡ true
    → no_iac page ≡ true
    → no_iac (encode (values sends seed password device page)) ≡ true
unfolding escape_new_environ
encode-no_iac true seed password device page s w d p =
    simp (no_iac-append, no_iac-escape, s, w, d, p)
encode-no_iac false seed password device page s w d p = simp (no_iac-append, no_iac-escape, d, p)

new_environ_reply-encode :
    (w : World) (h : Handler)
    → plain h.config.device_name ≡ true
    → new_environ_reply w h
      ≡ iac ∷ sb ∷ new_environ ∷ ((0x00 ∷ encode (reply_values w h)) ++ (iac ∷ se ∷ []))
unfolding new_environ_reply seed_variables
new_environ_reply-encode w h p =
    let page = to_decimal (number h.config.code_page) in
    ap (λ bs. iac ∷ sb ∷ new_environ ∷ 0x00 ∷ bs)
      (written-encode (sends_password w h) (next_seed w h) (substitute_password w h)
        h.config.device_name page (escape_new_environ-plain h.config.device_name p)
        (escape_new_environ-plain page (to_decimal-plain h.config.code_page)))

-- A Telnet client in State::Data hears of the reply to a NEW-ENVIRON request one subnegotiation, and a
-- reader of RFC 1572 finds in it, behind the IS, just the variables of the reply with their values: the
-- device name, the seed of the client and the substitute password where they are sent, and the others.
-- The conditions are that the device name, which is not escaped, has no byte up to 3 and no 0xFF, and
-- that neither the seed nor the password has a 0xFF, which is not doubled.
pub feed-new_environ_reply :
    (w : World) (h : Handler) (c : Client)
    → c.state ≡ plain_data
    → plain h.config.device_name ≡ true
    → no_iac (next_seed w h) ≡ true
    → no_iac (substitute_password w h) ≡ true
    → (body : Bytes) × (heard (feed (new_environ_reply w h) c)
        ≡ subnegotiated new_environ (0x00 ∷ body) (heard c))
      × (read_variables body ≡ named (reply_values w h))
unfolding hear_all
feed-new_environ_reply w h c d p s q =
    let sends = sends_password w h in
    let seed = next_seed w h in
    let password = substitute_password w h in
    let device = h.config.device_name in
    let page = to_decimal (number h.config.code_page) in
    let free : no_iac (encode (reply_values w h)) ≡ true =
      encode-no_iac sends seed password device page s q (plain-no_iac device p)
        (plain-no_iac page (to_decimal-plain h.config.code_page)) in
    (
      encode (reply_values w h),
      (heard-feed (new_environ_reply w h) c (unfold IsTidy in inl d)).0
          ∙ ap (λ bs. hear_all bs (heard c)) (new_environ_reply-encode w h p)
          ∙ subnegotiation_heard new_environ (0x00 ∷ encode (reply_values w h)) [] (heard c) d free,
      read_variables-encode (reply_values w h) (values-plain_names sends seed password device page),
    )
