-- ===== src/Smtp/Patterns.antt =====
-- src/smtp/server.rs: the patterns of MAIL and RCPT, and what `parse_address_message_by_re` makes of
-- a message with them.
pub mod Senders
pub mod Lines
pub mod Login
use whalemail.Prelude.{
  ◌≡◌, ◌↔◌, refl, sym, ap, subst, ◌∙◌, Option, none, some, [], ◌∷◌, arith, inl, inr, Option-cases,
}
use whalemail.Text.{Text, codes}
use whalemail.Regex.{Regex, Finds, IsCaptures}
use whalemail.Regex.Address.{
  address_cmd, IsSpelled, address_cmd-IsSpelled, IsSpelled-address_cmd, IsSpelled-unique,
}
use whalemail.Command.{Command}
use whalemail.Smtp.Mail.{parse_address}

-- `RE.mail_cmd`
unfoldable pub mail_cmd : Regex
unfolding address_cmd
mail_cmd = address_cmd (codes "MAIL FROM:<")

-- `RE.rcpt_cmd`
unfoldable pub rcpt_cmd : Regex
unfolding address_cmd
rcpt_cmd = address_cmd (codes "RCPT TO:<")

module _ (word : Text) (captures : Text → Option (Option Text))
    (documented : IsCaptures (address_cmd word) captures) where
  captured : (s t : Text) → IsSpelled word s t → captures s ≡ some (some t)
  captured s t h = elim (Option-cases (captures s)) [
    | inl n ↦ absurd (documented.complete s _ (IsSpelled-address_cmd word s t h) n)
    | inr (g, e) ↦
        let (u, eq, k) = address_cmd-IsSpelled word s (g ∷ []) (documented.found s g e) in
        e ∙ ap some (cc (eq, IsSpelled-unique word s t u h k))
  ]

  parsed-IsSpelled :
      (cmd : Command) (t : Text)
      → parse_address captures cmd ≡ some t
      → IsSpelled word cmd.message t
  unfolding parse_address
  parsed-IsSpelled cmd t e = elim (Option-cases (captures cmd.message)) [
    | inl n ↦ ground arith
    | inr (g, c) ↦
        let (u, eq, k) = address_cmd-IsSpelled word cmd.message (g ∷ []) (documented.found _ g c) in
        subst (IsSpelled word cmd.message) (ground (arith, eq)) k
  ]

  pub parse_address-IsSpelled :
      (cmd : Command) (t : Text)
      → (parse_address captures cmd ≡ some t) ↔ IsSpelled word cmd.message t
  unfolding parse_address
  parse_address-IsSpelled cmd t =
      (parsed-IsSpelled cmd t, λ h. rw (captured cmd.message t h, parse_address) refl)
