-- ===== src/Client/Session.antt =====
-- `SmtpClient::expect` and `SmtpClient::run`: the dialogue with the remote host.
use whalemail.Prelude.{Option, none, some, List, [], ◌∷◌, ◌++◌, if◌then◌else◌}
use whalemail.Prelude.Outcome.{Result, ok, err}
use whalemail.Prelude.Action.{Outcome, done, failed, panicked, Action, pure, ◌>>◌}
use whalemail.Text.{Text, codes, starts_with}
use whalemail.Config.{Config}
use whalemail.Envelope.{MailAddress, Envelope}
use whalemail.Net.{IoError}
use whalemail.Client.Errors.{ClientError, from_io_error}
use whalemail.Client.Network.{Connection, Network, send, read_reply}

-- `send(..).await?`
abbrev pub lift_io : Outcome IoError (Unit {0}) → Outcome ClientError (Unit {0})
lift_io (done u) = done u
lift_io (failed e) = failed (from_io_error e)
lift_io panicked = panicked

unfoldable pub say : Connection → Text → Action ClientError Network (Unit {0})
say conn msg w = let r = send conn msg w in (lift_io r.0, r.1)

abbrev pub judge : Text → Option (Result IoError Text) → Outcome ClientError (Unit {0})
judge prefix none = failed ClientError.timeout
judge prefix (some (err e)) = failed (from_io_error e)
judge prefix (some (ok r)) =
    if starts_with r prefix then done tt else failed (ClientError.smtp_error r)

unfoldable pub expect : Connection → Text → Action ClientError Network (Unit {0})
expect conn prefix w = let r = read_reply conn w in (judge prefix r.0, r.1)

-- the loop over the recipients
unfoldable pub say_recipients :
    Connection → List MailAddress → Action ClientError Network (Unit {0})
say_recipients conn [] = pure tt
say_recipients conn (r ∷ rs) = do
  say conn (codes "RCPT TO:<" ++ (r.address ++ codes ">\r\n"))
  expect conn (codes "250")
  say_recipients conn rs

-- the result of the last `send` is dropped
unfoldable pub say_quit : Connection → Action ClientError Network (Unit {0})
say_quit conn w = let r = send conn (codes "QUIT\r\n") w in (done tt, r.1)

unfoldable pub run :
    Connection → Config → Envelope → List MailAddress → Action ClientError Network (Unit {0})
run conn config envelope recipients = do
  say conn (codes "EHLO " ++ (config.hostname ++ codes "\r\n"))
  expect conn (codes "250")
  say conn (codes "MAIL FROM:<" ++ (envelope.sender.address ++ codes ">\r\n"))
  expect conn (codes "250")
  say_recipients conn recipients
  say conn (codes "DATA\r\n")
  expect conn (codes "354")
  say conn envelope.body
  expect conn (codes "250")
  say_quit conn
