-- ===== src/Handler/Environ/Cut.antt =====
-- A reply to a NEW-ENVIRON request whose seed holds 0xFF 0xF0.
use protocol_tn.Base.{
  true, ◌||◌, [], ◌∷◌, ◌++◌, Bytes, leb, ◌==◌, ◌≡◌, refl, sym, ap, ◌∙◌, inl, inr, Bool-cases,
  append_assoc,
}
use protocol_tn.Utils.Text.Lines.{codes}
use protocol_tn.CodePage.{number}
use protocol_tn.IbmRSeed.{escape_new_environ}
use protocol_tn.Telnet.Command.{iac, sb, se, new_environ}
use protocol_tn.Telnet.Client.{Client, plain_data, feed}
use protocol_tn.Telnet.Client.Hearing.{heard, hear_all, IsTidy, heard-feed}
use protocol_tn.Handler.State.{Handler, World}
use protocol_tn.Handler.Handshake.{
  to_decimal, variable, substitute_password, seed_variables, new_environ_reply,
}
use protocol_tn.Handler.Environ.Reader.{
  read_variables, plain, escape_new_environ-plain, read_variables_cut,
}
use protocol_tn.Handler.Environ.{
  next_seed, sends_password, no_iac, no_iac-append, no_iac-escape, plain-no_iac, subnegotiated,
  subnegotiation_heard, written,
}

escape_new_environ-append :
    (xs ys : Bytes) → escape_new_environ (xs ++ ys) ≡ escape_new_environ xs ++ escape_new_environ ys
unfolding escape_new_environ
escape_new_environ-append [] ys = refl
escape_new_environ-append (x ∷ xs) ys = elim (Bool-cases (leb x 0x03 || (x == 0xFF))) [
  | inl e ↦ rw (e, escape_new_environ-append xs ys) refl
  | inr e ↦ rw (e, escape_new_environ-append xs ys) refl
]

-- What stands in front of the 0xFF, and the ESC.
abbrev cut_body : Bytes → Bytes → Bytes
cut_body device before =
    variable "DEVNAME" device ++ (variable "IBMRSEED" (escape_new_environ before) ++ (0x02 ∷ []))

-- What stands behind the 0xF0.
abbrev cut_rest : Bytes → Bytes → Bytes → Bytes
cut_rest behind password page =
    escape_new_environ behind
    ++ (variable "IBMSUBSPW" (escape_new_environ password)
        ++ (variable "IBMSUBSVAR" []
            ++ (variable "KBDTYPE" (codes "USB")
                ++ (variable "CODEPAGE" page
                    ++ (variable "CHARSET" (codes "697") ++ (iac ∷ se ∷ []))))))

written_cut :
    (before behind password device page : Bytes)
    → written true (before ++ (0xFF ∷ 0xF0 ∷ behind)) password device page
      ≡ cut_body device before ++ (iac ∷ se ∷ cut_rest behind password page)
written_cut before behind password device page =
    let escaped : escape_new_environ (0xFF ∷ 0xF0 ∷ behind)
        ≡ 0x02 ∷ 0xFF ∷ 0xF0 ∷ escape_new_environ behind =
      unfold escape_new_environ in refl in
    simp (escape_new_environ-append, escaped, append_assoc)

cut_body-no_iac :
    (device before : Bytes)
    → no_iac device ≡ true
    → no_iac before ≡ true
    → no_iac (cut_body device before) ≡ true
cut_body-no_iac device before d b = simp (no_iac-append, no_iac-escape, d, b)

reply_cut :
    (w : World) (h : Handler) (before behind : Bytes)
    → sends_password w h ≡ true
    → next_seed w h ≡ before ++ (0xFF ∷ 0xF0 ∷ behind)
    → new_environ_reply w h
      ≡ iac
        ∷ sb
        ∷ new_environ
        ∷ ((0x00 ∷ cut_body h.config.device_name before)
            ++ (iac
                ∷ se
                ∷ cut_rest behind
                    (substitute_password w h)
                    (to_decimal (number h.config.code_page))))
unfolding new_environ_reply seed_variables
reply_cut w h before behind v e =
    let page = to_decimal (number h.config.code_page) in
    ap (λ bs. iac ∷ sb ∷ new_environ ∷ 0x00 ∷ bs)
      (ap (λ b. written b (next_seed w h) (substitute_password w h) h.config.device_name page) v
        ∙ ap (λ s. written true s (substitute_password w h) h.config.device_name page) e
        ∙ written_cut before behind (substitute_password w h) h.config.device_name page)

-- A reply with a password, whose seed has the bytes 0xFF and 0xF0 behind bytes without 0xFF, and whose
-- device name has no byte up to 3 and no 0xFF, ends early for a Telnet client in State::Data: it hears a
-- subnegotiation in which a reader of RFC 1572 finds the device name and the seed up to those bytes
-- alone, without a password, and goes on with the rest as other input.
pub feed-new_environ_reply_cut :
    (w : World) (h : Handler) (c : Client) (before behind : Bytes)
    → c.state ≡ plain_data
    → plain h.config.device_name ≡ true
    → sends_password w h ≡ true
    → no_iac before ≡ true
    → next_seed w h ≡ before ++ (0xFF ∷ 0xF0 ∷ behind)
    → (body : Bytes) × (rest : Bytes) × (heard (feed (new_environ_reply w h) c)
        ≡ hear_all rest (subnegotiated new_environ (0x00 ∷ body) (heard c)))
      × (read_variables body
          ≡ (codes "DEVNAME", h.config.device_name) ∷ (codes "IBMRSEED", before) ∷ [])
feed-new_environ_reply_cut w h c before behind d p v n e =
    let device = h.config.device_name in
    let body = cut_body device before in
    let rest = cut_rest behind (substitute_password w h) (to_decimal (number h.config.code_page)) in
    (
      body,
      rest,
      (heard-feed (new_environ_reply w h) c (unfold IsTidy in inl d)).0
          ∙ ap (λ bs. hear_all bs (heard c)) (reply_cut w h before behind v e)
          ∙ subnegotiation_heard new_environ (0x00 ∷ body) rest (heard c) d
              (cut_body-no_iac device before (plain-no_iac device p) n),
      ap
            (λ x. read_variables (
              variable "DEVNAME" x
              ++ (variable "IBMRSEED" (escape_new_environ before) ++ (0x02 ∷ []))))
            (sym (escape_new_environ-plain device p))
          ∙ read_variables_cut "DEVNAME" "IBMRSEED" device before refl refl,
    )
