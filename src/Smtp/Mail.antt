-- ===== src/Smtp/Mail.antt =====
-- `parse_address_message_by_re`, and `MailFromState` with its handler of MAIL.
use whalemail.Prelude.{Bool, true, false, Option, none, some, if◌then◌else◌}
use whalemail.Prelude.Action.{Action, pure, panic, ◌>>◌}
use whalemail.Text.{Text, text_eq}
use whalemail.Config.{Hostname}
use whalemail.User.{User}
use whalemail.Envelope.{MailAddress, new_address, cached_is_local}
use whalemail.UserDb.{UserDb}
use whalemail.Net.{IoError}
use whalemail.Command.{Command}
use whalemail.Smtp.Crates.{Env, send}
use whalemail.Smtp.Replies.{respond_bad_command}
use whalemail.Smtp.State.{
  SmtpState, EhloState, mail, ehlo, msg_invalid_host, msg_unauthorized, msg_ok,
}

-- the group 1 of a match; `none` is `BadCommandError`
unfoldable pub parse_address : (Text → Option (Option Text)) → Command → Option Text
parse_address captures cmd = elim (captures cmd.message) [ none ↦ none | some group ↦ group ]

abbrev pub may_send_as : Option User → MailAddress → Bool
may_send_as none sender = false
may_send_as (some user) sender = text_eq user.identity sender.address

-- `none` is a panic of the database
abbrev pub permitted : Option User → MailAddress → Option Bool → Option Bool
permitted authorized sender none = none
permitted authorized sender (some local) =
    some (if local then may_send_as authorized sender else true)

-- `MailFromState::has_permission`, with the sender whose cache it fills
unfoldable pub has_permission : UserDb → Option User → MailAddress → Option Bool × MailAddress
has_permission db authorized sender =
    let r = cached_is_local db.is_local_mailbox sender in (permitted authorized r.1 r.0, r.1)

module _ {Session : Type 0} (db : UserDb) where
  abbrev pub from_sender :
      Option User → Option Bool × MailAddress → Action IoError Env (SmtpState Session)
  from_sender authorized (none, sender) = panic
  from_sender authorized (some local, sender) =
      pure (mail (record { sender = sender; is_local_sender = local; authorized = authorized }))

  -- the end of `mail_from`
  unfoldable pub accept_mail : MailAddress → Option User → Action IoError Env (SmtpState Session)
  accept_mail sender authorized = do
    send msg_ok
    from_sender authorized (cached_is_local db.is_local_mailbox sender)

  abbrev pub when_permitted :
      EhloState → Option Bool × MailAddress → Action IoError Env (SmtpState Session)
  when_permitted e (none, sender) = panic
  when_permitted e (some true, sender) = accept_mail sender e.authorized
  when_permitted e (some false, sender) = do send msg_unauthorized; pure (ehlo e)

  -- The permission is checked in EHLO only.
  unfoldable pub check_sender :
      SmtpState Session → MailAddress → Action IoError Env (SmtpState Session)
  check_sender (ehlo e) sender = when_permitted e (has_permission db e.authorized sender)
  check_sender from_state sender = accept_mail sender none

  abbrev pub with_sender :
      SmtpState Session → Option MailAddress → Action IoError Env (SmtpState Session)
  with_sender from_state none = do send msg_invalid_host; pure from_state
  with_sender from_state (some sender) = check_sender from_state sender

  abbrev pub with_text :
      Hostname → SmtpState Session → Option Text → Action IoError Env (SmtpState Session)
  with_text hostname from_state none = do respond_bad_command; pure from_state
  with_text hostname from_state (some s) = with_sender from_state (new_address s hostname)

  -- `MailFromState::mail_from`
  unfoldable pub mail_from :
      (Text → Option (Option Text))
      → Hostname
      → Command
      → SmtpState Session
      → Action IoError Env (SmtpState Session)
  mail_from captures hostname cmd from_state =
      with_text hostname from_state (parse_address captures cmd)
