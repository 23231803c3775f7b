-- ===== src/Smtp/Calm.antt =====
-- When `SmtpServer::handle` does not panic.
mod Senders
mod Delivery
use whalemail.Prelude.{true, false, Bool, ◌≡◌, sym, ap, ◌∙◌, not, List, [], ◌∷◌}
use whalemail.Prelude.Action.{Outcome, Action, pure, continue, lift, ◌>>=◌, ◌>>◌}
use whalemail.Prelude.Calm.{Calm, Calm-fail}
use whalemail.Text.{Text}
use whalemail.Config.{Config}
use whalemail.User.{User}
use whalemail.UserDb.{UserDb}
use whalemail.Envelope.{MailAddress, Envelope, new_address}
use whalemail.Net.{send_to}
use whalemail.Maildir.{DiskCall, Storage, disk_call, store}
use whalemail.Queue.Groups.{add-eq}
use whalemail.Command.{Command}
use whalemail.Transparency.{decode_transparency}
use whalemail.Auth.Session.{Step, running, finished_sent, finished_unsent, step_error, Sasl}
use whalemail.Auth.{Auth, AuthMech, plain, login, validate, auth_step, new_auth}
use whalemail.Smtp.Crates.{Crates, send}
use whalemail.Smtp.State.{
  MailFromState, RcptState, RcptError, bad_command, invalid_mailbox, unauthorized,
}
use whalemail.Smtp.Mail.{
  has_permission, accept_mail, check_sender, with_sender, mail_from, parse_address,
}
use whalemail.Smtp.Mail as Mail
use whalemail.Smtp.Rcpt as Rcpt
use whalemail.Smtp.Rcpt.{
  respond_rcpt_error, may_send_to, push_recipient, with_recipient, add_rcpt, after_first_rcpt,
  first_rcpt, after_next_rcpt, next_rcpt,
}
use whalemail.Smtp.Delivery.{
  find_mailboxes, mailbox_error, store_mail, store_all, store_found, deliver_local_mail,
  sort_recipients, keep_queue, enqueue, is_nil, deliver_locals, deliver_mail,
}
use whalemail.Smtp.Handle.{greet, with_command}
use whalemail.Client.Transcript.{sent-ne-panicked}
use whalemail.Smtp.Calm.Senders.{reply-Calm}

pub greet-Calm :
    {Session M : Type 0} (crates : Crates Session M) (config : Config) (db : UserDb)
    → Calm (greet crates config db)
unfolding greet
greet-Calm crates config db = reply-Calm _ _
