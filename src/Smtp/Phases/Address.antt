-- ===== src/Smtp/Phases/Address.antt =====
-- The phases that MAIL and RCPT lead to.
use whalemail.Prelude.{Bool, true, false, Option, none, some, inl, inr, Option-cases}
use whalemail.Prelude.Keeps.{Keeps-pure, Keeps-panic, Keeps-bind, Keeps-then}
use whalemail.Text.{Text}
use whalemail.Config.{Hostname}
use whalemail.User.{User}
use whalemail.UserDb.{UserDb}
use whalemail.Command.{Command, CommandVerb}
use whalemail.Envelope.{MailAddress, cached_is_local, new_address}
use whalemail.Smtp.State.{SmtpState, ehlo, EhloState, MailFromState, RcptState, RcptError}
use whalemail.Smtp.Mail.{
  parse_address, from_sender, when_permitted, mail_from, check_sender, accept_mail, has_permission,
}
use whalemail.Smtp.Rcpt.{first_rcpt, after_first_rcpt, next_rcpt, after_next_rcpt}
use whalemail.Smtp.Invariant.Rcpt.{Keeps-send-then}
use whalemail.Smtp.Phases.{
  Phase, greeted, sender, recipients, phase_of, Next, ehlo_sender, first_recipient, more_recipients,
  ehlo_refused, first_refused, free, anything, Reaches, Leads,
}

module _ {Session : Type 0} (db : UserDb) (h : Hostname) where
  after_first-Next :
      (m : MailFromState) (a : Option RcptError × RcptState)
      → Leads {Session = Session} (some CommandVerb.rcpt) sender (after_first_rcpt m a)
  unfolding after_first_rcpt phase_of
  after_first-Next m (none, r) = Keeps-pure _ first_recipient
  after_first-Next m (some e, r) = Keeps-then _ _ (anything _) (Keeps-pure _ first_refused)

  after_next-Next :
      (a : Option RcptError × RcptState)
      → Leads {Session = Session} (some CommandVerb.rcpt) recipients (after_next_rcpt a)
  unfolding after_next_rcpt phase_of
  after_next-Next (none, r) = Keeps-pure _ more_recipients
  after_next-Next (some e, r) = Keeps-then _ _ (anything _) (Keeps-pure _ more_recipients)

  pub first_rcpt-Next :
      (captures : Text → Option (Option Text)) (cmd : Command) (m : MailFromState)
      → Leads {Session = Session} (some CommandVerb.rcpt) sender (first_rcpt captures h cmd m)
  unfolding first_rcpt
  first_rcpt-Next captures cmd m =
      Keeps-bind (λ _. Unit) _ _ (anything _) (λ a _. after_first-Next m a)

  pub next_rcpt-Next :
      (captures : Text → Option (Option Text)) (cmd : Command) (r : RcptState)
      → Leads {Session = Session} (some CommandVerb.rcpt) recipients (next_rcpt captures h cmd r)
  unfolding next_rcpt
  next_rcpt-Next captures cmd r = Keeps-bind (λ _. Unit) _ _ (anything _) (λ a _. after_next-Next a)

  pub accept_mail-Next :
      {p : Phase}
      → Next (some CommandVerb.mail) p sender
      → (a : MailAddress) (u : Option User)
      → Leads {Session = Session} (some CommandVerb.mail) p (accept_mail db a u)
  unfolding accept_mail phase_of
  accept_mail-Next {p} n a u =
      Keeps-then _ _ (anything _) (answered (cached_is_local db.is_local_mailbox a))
    where
      answered :
          (r : Option Bool × MailAddress)
          → Leads {Session = Session} (some CommandVerb.mail) p (from_sender db u r)
      answered (none, s) = Keeps-panic
      answered (some b, s) = Keeps-pure _ n

  pub mail_from-Next :
      (captures : Text → Option (Option Text)) (cmd : Command) (s : SmtpState Session)
      → Reaches (some CommandVerb.mail) (phase_of s) s
      → ((a : MailAddress)
          → Leads {Session = Session} (some CommandVerb.mail) (phase_of s) (check_sender db s a))
      → Leads {Session = Session}
          (some CommandVerb.mail)
          (phase_of s)
          (mail_from db captures h cmd s)
  unfolding mail_from
  mail_from-Next captures cmd s stays checked = elim (Option-cases (parse_address captures cmd)) [
    | inl n ↦ rw (n, mail_from) (Keeps-send-then free _ _ stays)
    | inr (t, p) ↦ elim (Option-cases (new_address t h)) [
      | inl n ↦ rw (p, n, mail_from) (Keeps-send-then free _ _ stays)
      | inr (a, q) ↦ rw (p, q, mail_from) (checked a)
    ]
  ]

  pub check_sender_ehlo-Next :
      (e : EhloState) (a : MailAddress)
      → Leads {Session = Session} (some CommandVerb.mail) greeted (check_sender db (ehlo e) a)
  unfolding check_sender phase_of
  check_sender_ehlo-Next e a = decided (has_permission db e.authorized a)
    where
      decided :
          (r : Option Bool × MailAddress)
          → Leads {Session = Session} (some CommandVerb.mail) greeted (when_permitted db e r)
      decided (none, s) = Keeps-panic
      decided (some true, s) = accept_mail-Next ehlo_sender s e.authorized
      decided (some false, s) = Keeps-send-then free _ _ ehlo_refused
