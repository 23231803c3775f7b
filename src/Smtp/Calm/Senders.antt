-- ===== src/Smtp/Calm/Senders.antt =====
-- The handlers of MAIL and RCPT do not panic.
use whalemail.Prelude.{Bool, true, false, ◌≢◌, refl, Option, none, some, inl, inr, Bool-cases}
use whalemail.Prelude.Action.{pure, ◌>>◌}
use whalemail.Prelude.Calm.{Calm, Calm-pure, Calm-bind, Calm-then}
use whalemail.Text.{Text}
use whalemail.Config.{Hostname}
use whalemail.User.{User}
use whalemail.UserDb.{Answers, UserDb}
use whalemail.Envelope.{MailAddress, filled, cached_is_local}
use whalemail.Net.{send_to}
use whalemail.Command.{Command}
use whalemail.Smtp.Crates.{send}
use whalemail.Smtp.State.{
  EhloState, SmtpState, ehlo, MailFromState, RcptState, RcptError, bad_command, invalid_mailbox,
  unauthorized,
}
use whalemail.Smtp.Mail.{
  has_permission, permitted, from_sender, when_permitted, accept_mail, check_sender, with_sender,
  mail_from, parse_address,
}
use whalemail.Smtp.Mail as Mail
use whalemail.Smtp.Rcpt as Rcpt
use whalemail.Smtp.Rcpt.{
  respond_rcpt_error, may_send_to, push_recipient, with_recipient, add_rcpt, after_first_rcpt,
  first_rcpt, after_next_rcpt, next_rcpt,
}
use whalemail.Client.Transcript.{sent-ne-panicked}

pub send-Calm : (msg : Text) → Calm (send msg)
unfolding send send_to
send-Calm msg = record { at = λ env. sent-ne-panicked msg _ }

pub reply-Calm : {A : Type 0} (msg : Text) (a : A) → Calm (do send msg; pure a)
reply-Calm msg a = Calm-then (send-Calm msg) (Calm-pure a)

cached_is_local-Answers :
    (db : UserDb) (a : MailAddress) → Answers db → (cached_is_local db.is_local_mailbox a).0 ≢ none
unfolding cached_is_local
cached_is_local-Answers db a h = by_cache a.is_local_mailbox
  where
    by_answer : (c : MailAddress) (o : Option Bool) → o ≢ none → (filled c o).0 ≢ none
    by_answer c none n = n
    by_answer c (some b) n = λ e. cc

    by_cache :
        (cache : Option Bool)
        → (cached_is_local db.is_local_mailbox (record a { is_local_mailbox = cache })).0 ≢ none
    by_cache none = by_answer _ (db.is_local_mailbox (record a { is_local_mailbox = none })) (h _)
    by_cache (some b) = λ e. cc

permitted-Answers :
    (u : Option User) (r : Option Bool × MailAddress) → r.0 ≢ none → permitted u r.1 r.0 ≢ none
permitted-Answers u (none, a) n = n
permitted-Answers u (some b, a) n = λ e. cc

module _ {Session : Type 0} (db : UserDb) (answers : Answers db) (hostname : Hostname) where
  from_sender-Calm :
      (u : Option User) (r : Option Bool × MailAddress)
      → r.0 ≢ none
      → Calm (from_sender {Session = Session} db u r)
  from_sender-Calm u (none, a) n = absurd (n refl)
  from_sender-Calm u (some b, a) n = Calm-pure _

  accept_mail-Calm :
      (a : MailAddress) (u : Option User) → Calm (accept_mail {Session = Session} db a u)
  unfolding accept_mail
  accept_mail-Calm a u =
      Calm-then (send-Calm _) (from_sender-Calm u _ (cached_is_local-Answers db a answers))

  when_permitted-Calm :
      (e : EhloState) (r : Option Bool × MailAddress)
      → r.0 ≢ none
      → Calm (when_permitted {Session = Session} db e r)
  when_permitted-Calm e (none, a) n = absurd (n refl)
  when_permitted-Calm e (some true, a) n = accept_mail-Calm a e.authorized
  when_permitted-Calm e (some false, a) n = reply-Calm _ _

  check_sender-Calm : (s : SmtpState Session) (a : MailAddress) → Calm (check_sender db s a)
  unfolding check_sender has_permission
  check_sender-Calm (ehlo e) a =
      when_permitted-Calm e _
        (permitted-Answers e.authorized _ (cached_is_local-Answers db a answers))
  check_sender-Calm _ a = accept_mail-Calm a none

  with_sender-Calm : (s : SmtpState Session) (o : Option MailAddress) → Calm (with_sender db s o)
  with_sender-Calm s none = reply-Calm _ _
  with_sender-Calm s (some a) = check_sender-Calm s a

  mail_text-Calm : (s : SmtpState Session) (o : Option Text) → Calm (Mail.with_text db hostname s o)
  mail_text-Calm s none = reply-Calm _ _
  mail_text-Calm s (some t) = with_sender-Calm s _

  pub mail_from-Calm :
      (captures : Text → Option (Option Text)) (cmd : Command) (s : SmtpState Session)
      → Calm (mail_from db captures hostname cmd s)
  unfolding mail_from
  mail_from-Calm captures cmd s = mail_text-Calm s _

module _ (hostname : Hostname) where
  respond_rcpt_error-Calm : (e : RcptError) → Calm (respond_rcpt_error e)
  unfolding respond_rcpt_error
  respond_rcpt_error-Calm bad_command = send-Calm _
  respond_rcpt_error-Calm invalid_mailbox = send-Calm _
  respond_rcpt_error-Calm unauthorized = send-Calm _

  push_recipient-Calm : (r : RcptState) (a : MailAddress) → Calm (push_recipient hostname r a)
  unfolding push_recipient
  push_recipient-Calm r a = elim (Bool-cases (may_send_to hostname r.authorized a)) [
    | inl y ↦ rw (y, push_recipient) (reply-Calm _ _)
    | inr n ↦ rw (n, push_recipient) (Calm-pure _)
  ]

  with_recipient-Calm :
      (r : RcptState) (o : Option MailAddress) → Calm (with_recipient hostname r o)
  with_recipient-Calm r none = Calm-pure _
  with_recipient-Calm r (some a) = push_recipient-Calm r a

  rcpt_text-Calm : (r : RcptState) (o : Option Text) → Calm (Rcpt.with_text hostname r o)
  rcpt_text-Calm r none = Calm-pure _
  rcpt_text-Calm r (some t) = with_recipient-Calm r _

  add_rcpt-Calm :
      (captures : Text → Option (Option Text)) (cmd : Command) (r : RcptState)
      → Calm (add_rcpt captures hostname cmd r)
  unfolding add_rcpt
  add_rcpt-Calm captures cmd r = rcpt_text-Calm r _

module _ {Session : Type 0} (hostname : Hostname) where
  after_first_rcpt-Calm :
      (m : MailFromState) (r : Option RcptError × RcptState)
      → Calm (after_first_rcpt {Session = Session} m r)
  unfolding after_first_rcpt
  after_first_rcpt-Calm m (none, r) = Calm-pure _
  after_first_rcpt-Calm m (some e, r) = Calm-then (respond_rcpt_error-Calm hostname e) (Calm-pure _)

  after_next_rcpt-Calm :
      (r : Option RcptError × RcptState) → Calm (after_next_rcpt {Session = Session} r)
  unfolding after_next_rcpt
  after_next_rcpt-Calm (none, r) = Calm-pure _
  after_next_rcpt-Calm (some e, r) = Calm-then (respond_rcpt_error-Calm hostname e) (Calm-pure _)

  pub first_rcpt-Calm :
      (captures : Text → Option (Option Text)) (cmd : Command) (m : MailFromState)
      → Calm (first_rcpt {Session = Session} captures hostname cmd m)
  unfolding first_rcpt
  first_rcpt-Calm captures cmd m =
      Calm-bind (add_rcpt-Calm hostname captures cmd _) (after_first_rcpt-Calm m)

  pub next_rcpt-Calm :
      (captures : Text → Option (Option Text)) (cmd : Command) (r : RcptState)
      → Calm (next_rcpt {Session = Session} captures hostname cmd r)
  unfolding next_rcpt
  next_rcpt-Calm captures cmd r =
      Calm-bind (add_rcpt-Calm hostname captures cmd r) after_next_rcpt-Calm
