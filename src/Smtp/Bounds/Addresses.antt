-- ===== src/Smtp/Bounds/Addresses.antt =====
-- The replies to MAIL and RCPT.
use whalemail.Prelude.{Bool, true, false, not, Option, none, some, if◌then◌else◌}
use whalemail.Prelude.Action.{Action, pure, ◌>>=◌, ◌>>◌}
use whalemail.Text.{Text}
use whalemail.Config.{Hostname}
use whalemail.UserDb.{UserDb}
use whalemail.Envelope.{MailAddress, new_address}
use whalemail.Net.{IoError}
use whalemail.Command.{Command}
use whalemail.Smtp.Crates.{Env, send}
use whalemail.Smtp.State.{
  SmtpState, ehlo, MailFromState, RcptState, RcptError, RcptError.unauthorized, bad_command,
  invalid_mailbox, msg_ok,
}
use whalemail.Smtp.Mail.{
  with_text, with_sender, check_sender, accept_mail, from_sender, when_permitted, mail_from,
  parse_address,
}
use whalemail.Smtp.Rcpt.{
  respond_rcpt_error, may_send_to, push_recipient, with_recipient, add_rcpt, refuse, first_rcpt,
  next_rcpt, after_first_rcpt, after_next_rcpt,
}
use whalemail.Smtp.Rcpt as Rcpt
use whalemail.User.{User}
use whalemail.Smtp.State.{EhloState}
use whalemail.Smtp.Bounds.{
  Says-panic, Says, Says-pure, Says-bind, Says-assoc, send-Says, reply-Says,
}

module _ {Session : Type 0} (db : UserDb) (hostname : Hostname) where
  from_sender-Says :
      (u : Option User) (r : Option Bool × MailAddress)
      → Says 0 (from_sender {Session = Session} db u r)
  from_sender-Says u (none, a) = Says-panic 0
  from_sender-Says u (some b, a) = Says-pure 0 _

  when_permitted-Says :
      (e : EhloState) (r : Option Bool × MailAddress)
      → Says 1 (when_permitted {Session = Session} db e r)
  unfolding accept_mail
  when_permitted-Says e (none, a) = Says-panic 1
  when_permitted-Says e (some true, a) = reply-Says _ (from_sender-Says e.authorized _)
  when_permitted-Says e (some false, a) = reply-Says _ (Says-pure 0 _)

  check_sender-Says : (s : SmtpState Session) (a : MailAddress) → Says 1 (check_sender db s a)
  unfolding check_sender accept_mail
  check_sender-Says (ehlo e) a = when_permitted-Says e _
  check_sender-Says s a = reply-Says _ (from_sender-Says none _)

  with_text-Says : (s : SmtpState Session) (o : Option Text) → Says 1 (with_text db hostname s o)
  with_text-Says s none = reply-Says _ (Says-pure 0 s)
  with_text-Says s (some t) = by_address (new_address t hostname)
    where
      by_address : (o : Option MailAddress) → Says 1 (with_sender db s o)
      by_address none = reply-Says _ (Says-pure 0 s)
      by_address (some a) = check_sender-Says s a

  pub mail_from-Says :
      (captures : Text → Option (Option Text)) (cmd : Command) (s : SmtpState Session)
      → Says 1 (mail_from db captures hostname cmd s)
  unfolding mail_from
  mail_from-Says captures cmd s = with_text-Says s (parse_address captures cmd)

abbrev Added : Type 0
Added = Option RcptError × RcptState

-- What comes behind a recipient that was added, or behind an error.
module _ {Session : Type 0} (hostname : Hostname)
    (k : Added → Action IoError Env (SmtpState Session))
    (added : (r : RcptState) → Says 0 (k (none, r)))
    (refused : (e : RcptError) (r : RcptState) → Says 1 (k (some e, r))) where
  push_recipient-Says :
      (r : RcptState) (a : MailAddress) → Says 1 (push_recipient hostname r a >>= k)
  unfolding push_recipient
  push_recipient-Says r a = by_test (not (may_send_to hostname r.authorized a)) _
    where
      by_test :
          (b : Bool) (r' : RcptState)
          → Says 1 ((if b then refuse unauthorized r else (do send msg_ok; pure (none, r'))) >>= k)
      by_test true r' = refused unauthorized r
      by_test false r' =
          Says-assoc 1 (send msg_ok) (λ _. pure (none, r')) k
            (Says-bind 1 0 (send-Says msg_ok) (λ _. added r'))

  with_recipient-Says :
      (r : RcptState) (o : Option MailAddress) → Says 1 (with_recipient hostname r o >>= k)
  with_recipient-Says r none = refused invalid_mailbox r
  with_recipient-Says r (some a) = push_recipient-Says r a

  with_rcpt-Says : (r : RcptState) (o : Option Text) → Says 1 (Rcpt.with_text hostname r o >>= k)
  with_rcpt-Says r none = refused bad_command r
  with_rcpt-Says r (some t) = with_recipient-Says r (new_address t r.hostname)

  add_rcpt-Says :
      (captures : Text → Option (Option Text)) (cmd : Command) (r : RcptState)
      → Says 1 (add_rcpt captures hostname cmd r >>= k)
  unfolding add_rcpt
  add_rcpt-Says captures cmd r = with_rcpt-Says r (parse_address captures cmd)

respond_rcpt_error-Says : (e : RcptError) → Says 1 (respond_rcpt_error e)
unfolding respond_rcpt_error
respond_rcpt_error-Says bad_command = send-Says _
respond_rcpt_error-Says invalid_mailbox = send-Says _
respond_rcpt_error-Says unauthorized = send-Says _

module _ {Session : Type 0} (captures : Text → Option (Option Text)) (hostname : Hostname)
    (cmd : Command) where
  pub first_rcpt-Says :
      (m : MailFromState) → Says 1 (first_rcpt {Session = Session} captures hostname cmd m)
  unfolding first_rcpt after_first_rcpt
  first_rcpt-Says m =
      add_rcpt-Says hostname (after_first_rcpt m) (λ r. Says-pure 0 _)
        (λ e r. Says-bind 1 0 (respond_rcpt_error-Says e) (λ _. Says-pure 0 _)) captures cmd _

  pub next_rcpt-Says :
      (r : RcptState) → Says 1 (next_rcpt {Session = Session} captures hostname cmd r)
  unfolding next_rcpt after_next_rcpt
  next_rcpt-Says r =
      add_rcpt-Says hostname after_next_rcpt (λ r. Says-pure 0 _)
        (λ e r. Says-bind 1 0 (respond_rcpt_error-Says e) (λ _. Says-pure 0 _)) captures cmd r
