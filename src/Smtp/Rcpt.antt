-- ===== src/Smtp/Rcpt.antt =====
-- `RcptError`, and `RcptState` with its handler of RCPT.
use whalemail.Prelude.{Bool, true, false, not, Option, none, some, [], ◌∷◌, ◌++◌, if◌then◌else◌}
use whalemail.Prelude.Action.{Action, pure, ◌>>=◌, ◌>>◌}
use whalemail.Text.{Text, text_eq}
use whalemail.Config.{Hostname}
use whalemail.User.{User}
use whalemail.Envelope.{MailAddress, Envelope, new_address}
use whalemail.Net.{IoError}
use whalemail.Command.{Command}
use whalemail.Smtp.Crates.{Env, send}
use whalemail.Smtp.Replies.{respond_bad_command}
use whalemail.Smtp.Mail.{parse_address}
use whalemail.Smtp.State.{
  SmtpState, mail, rcpt, MailFromState, RcptState, RcptError, bad_command, invalid_mailbox,
  unauthorized, msg_invalid_mailbox, msg_unauthorized, msg_ok,
}

-- `RcptError::respond`
unfoldable pub respond_rcpt_error : RcptError → Action IoError Env (Unit {0})
respond_rcpt_error bad_command = respond_bad_command
respond_rcpt_error invalid_mailbox = send msg_invalid_mailbox
respond_rcpt_error unauthorized = send msg_unauthorized

-- `RcptState::has_permission`
unfoldable pub may_send_to : Hostname → Option User → MailAddress → Bool
may_send_to hostname authorized to =
    if text_eq hostname to.domain then true else elim authorized [ none ↦ false | some user ↦ true ]

abbrev pub refuse : RcptError → RcptState → Action IoError Env (Option RcptError × RcptState)
refuse e r = pure (some e, r)

unfoldable pub push_recipient :
    Hostname → RcptState → MailAddress → Action IoError Env (Option RcptError × RcptState)
push_recipient hostname r recipient =
    if not (may_send_to hostname r.authorized recipient)
    then refuse unauthorized r
    else do send msg_ok; pure (none, record r { recipients = r.recipients ++ recipient ∷ [] })

abbrev pub with_recipient :
    Hostname → RcptState → Option MailAddress → Action IoError Env (Option RcptError × RcptState)
with_recipient hostname r none = refuse invalid_mailbox r
with_recipient hostname r (some recipient) = push_recipient hostname r recipient

abbrev pub with_text :
    Hostname → RcptState → Option Text → Action IoError Env (Option RcptError × RcptState)
with_text hostname r none = refuse bad_command r
with_text hostname r (some s) = with_recipient hostname r (new_address s r.hostname)

-- `RcptState::add_rcpt`: the error that is not one of the connection comes back as a value
unfoldable pub add_rcpt :
    (Text → Option (Option Text))
    → Hostname
    → Command
    → RcptState
    → Action IoError Env (Option RcptError × RcptState)
add_rcpt captures hostname cmd r = with_text hostname r (parse_address captures cmd)

module _ {Session : Type 0} where
  -- the end of `RcptState::new`: the authorization that was taken is given back
  unfoldable pub after_first_rcpt :
      MailFromState → Option RcptError × RcptState → Action IoError Env (SmtpState Session)
  after_first_rcpt from_state (none, r) = pure (rcpt r)
  after_first_rcpt from_state (some e, r) = do
    respond_rcpt_error e
    pure (mail (record from_state { authorized = r.authorized }))

  -- `RcptState::new` and the arm of `handle` round it
  unfoldable pub first_rcpt :
      (Text → Option (Option Text))
      → Hostname
      → Command
      → MailFromState
      → Action IoError Env (SmtpState Session)
  first_rcpt captures hostname cmd from_state =
      add_rcpt captures hostname cmd (record {
        hostname = hostname;
        sender = from_state.sender;
        is_local_sender = from_state.is_local_sender;
        recipients = [];
        authorized = from_state.authorized;
      })
      >>= after_first_rcpt from_state

  -- the end of the arm of `handle` for a further RCPT
  unfoldable pub after_next_rcpt :
      Option RcptError × RcptState → Action IoError Env (SmtpState Session)
  after_next_rcpt (none, r) = pure (rcpt r)
  after_next_rcpt (some e, r) = do respond_rcpt_error e; pure (rcpt r)

  unfoldable pub next_rcpt :
      (Text → Option (Option Text))
      → Hostname
      → Command
      → RcptState
      → Action IoError Env (SmtpState Session)
  next_rcpt captures hostname cmd r = add_rcpt captures hostname cmd r >>= after_next_rcpt

-- `RcptState::from`, the rollback of a failed delivery
unfoldable pub rcpt_from : Hostname → Envelope → Option User → Bool → RcptState
rcpt_from hostname envelope authorized is_local_sender = record {
  hostname = hostname;
  sender = envelope.sender;
  is_local_sender = is_local_sender;
  recipients = envelope.recipients;
  authorized = authorized;
}
