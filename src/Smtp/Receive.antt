-- ===== src/Smtp/Receive.antt =====
-- `DataState`: DATA and the mail body.
use whalemail.Prelude.{true, false, [], ◌++◌, if◌then◌else◌}
use whalemail.Prelude.Outcome.{Result, ok, err}
use whalemail.Prelude.Action.{Outcome, done, failed, panicked, Action, pure, ◌>>◌}
use whalemail.Text.{Text, codes}
use whalemail.Config.{Hostname}
use whalemail.Envelope.{Envelope}
use whalemail.UserDb.{UserDb}
use whalemail.Net.{IoError}
use whalemail.Command.{Command}
use whalemail.Transparency.{
  TransparencySyntaxError, no_newline_mail_end, mail_end_at_unexpected_position, contains_mail_end,
  decode_transparency,
}
use whalemail.Smtp.Crates.{Crates, Env, send}
use whalemail.Smtp.Replies.{delivery_error_response}
use whalemail.Smtp.Delivery.{MailboxDeliveryError, deliver_mail}
use whalemail.Smtp.Rcpt.{rcpt_from}
use whalemail.Smtp.State.{
  SmtpState, rcpt, data', datacomplete, RcptState, DataState, msg_ok, transparency_error_no_nl_end,
  transparency_unexpected_end,
}

-- `TransparencySyntaxError::respond`
unfoldable pub respond_syntax_error : TransparencySyntaxError → Action IoError Env (Unit {0})
respond_syntax_error no_newline_mail_end = send transparency_error_no_nl_end
respond_syntax_error mail_end_at_unexpected_position = send transparency_unexpected_end

-- `DataState::new`
unfoldable pub start_data : {Session : Type 0} → RcptState → Action IoError Env (SmtpState Session)
start_data r = do
  send (codes "354 start mail input\r\n")
  pure (
      data' (record {
        sender = r.sender;
        is_local_sender = r.is_local_sender;
        recipients = r.recipients;
        authorized = r.authorized;
        mail_body = [];
        body_finished = false;
      }))

module _ {Session M : Type 0} (crates : Crates Session M) where
  -- `Envelope::new`
  abbrev pub envelope_of : DataState → Text → Env → Envelope
  envelope_of d body env = record {
    sender = d.sender;
    recipients = d.recipients;
    body = body;
    uuid = (crates.new_v4 env.rng).0;
  }

module _ {Session M : Type 0} (crates : Crates Session M) (db : UserDb) (hostname : Hostname) where
  -- the reply to a delivery, and the state behind it
  abbrev pub settle :
      DataState
      → Envelope
      → Outcome MailboxDeliveryError (Unit {0}) × Env
      → Outcome IoError (SmtpState Session) × Env
  settle d envelope (done u, env) = (do send msg_ok; pure datacomplete) env
  settle d envelope (failed e, env) =
      (do
        delivery_error_response
        pure (rcpt (rcpt_from hostname envelope d.authorized d.is_local_sender)))
        env
  settle d envelope (panicked, env) = (panicked, env)

  -- the end of `receive_data`
  unfoldable pub finish_mail : DataState → Text → Action IoError Env (SmtpState Session)
  finish_mail d body env = settle d (envelope_of crates d body env) (
      deliver_mail crates db (envelope_of crates d body env)
        (record env { rng = (crates.new_v4 env.rng).1 }))

  abbrev pub decoded :
      DataState → Result TransparencySyntaxError Text → Action IoError Env (SmtpState Session)
  decoded d (ok body) = finish_mail d body
  decoded d (err e) = do respond_syntax_error e; pure (data' (record d { mail_body = [] }))

  -- `DataState::receive_data`
  unfoldable pub receive_data : Command → DataState → Action IoError Env (SmtpState Session)
  receive_data cmd d =
      let body = d.mail_body ++ cmd.message in
      if contains_mail_end cmd.message
      then decoded (record d { mail_body = body; body_finished = true }) (decode_transparency body)
      else pure (data' (record d { mail_body = body }))
