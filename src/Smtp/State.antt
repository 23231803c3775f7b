-- ===== src/Smtp/State.antt =====
-- The states of a connection, and the replies.
use whalemail.Prelude.{Bool, Option, List}
use whalemail.Text.{Text, codes}
use whalemail.Config.{Hostname}
use whalemail.User.{User}
use whalemail.Envelope.{MailAddress}
use whalemail.Auth.{Auth}

abbrev pub msg_invalid_mailbox : Text
msg_invalid_mailbox = codes "450 Invalid mailbox\r\n"

abbrev pub msg_invalid_host : Text
msg_invalid_host = codes "450 Invalid host\r\n"

abbrev pub msg_mailbox_unavailable : Text
msg_mailbox_unavailable = codes "450 Requested mail action not taken: mailbox unavailable\r\n"

abbrev pub msg_bad_command : Text
msg_bad_command = codes "500 Unrecognized command\r\n"

abbrev pub msg_unauthorized : Text
msg_unauthorized = codes "530 5.7.0 Authentication required\r\n"

abbrev pub transparency_error_no_nl_end : Text
transparency_error_no_nl_end = codes "500 Syntax error: Invalid mail body terminator: <CR><LF>.\r\n"

abbrev pub transparency_unexpected_end : Text
transparency_unexpected_end = codes "500 Syntax error: <CR><LF>.<CR><LF> at unexpected position\r\n"

abbrev pub msg_ok : Text
msg_ok = codes "250 OK\r\n"

pub record EhloState : Type 0 where
  pub authorized : Option User

pub record AuthState (Session : Type 0) : Type 0 where
  pub auth : Auth Session
  pub from_state : EhloState

pub record MailFromState : Type 0 where
  pub sender : MailAddress
  pub is_local_sender : Bool
  pub authorized : Option User

pub record RcptState : Type 0 where
  pub hostname : Hostname
  pub sender : MailAddress
  pub is_local_sender : Bool
  pub recipients : List MailAddress
  pub authorized : Option User

pub record DataState : Type 0 where
  pub sender : MailAddress
  pub is_local_sender : Bool
  pub recipients : List MailAddress
  pub authorized : Option User
  pub mail_body : Text
  pub body_finished : Bool

-- `InitState`, `HeloState` and `CompleteState` have no fields.
pub data SmtpState (Session : Type 0) : Type 0 where
  init helo datacomplete quit cancelled : SmtpState Session
  ehlo : EhloState → SmtpState Session
  auth : AuthState Session → SmtpState Session
  mail : MailFromState → SmtpState Session
  rcpt : RcptState → SmtpState Session
  data' : DataState → SmtpState Session

pub data StateKind : Type 0 where
  continue' quit' : StateKind

-- `AuthResult`
pub data AuthResult (Session : Type 0) : Type 0 where
  unfinished : AuthState Session → AuthResult Session
  authorized : EhloState → User → AuthResult Session
  bad_mechanism bad_credentials : EhloState → AuthResult Session

pub data RcptError : Type 0 where
  bad_command invalid_mailbox unauthorized : RcptError
