-- ===== src/Smtp/Crates.antt =====
-- The third-party code that the server calls, and the environment of one connection.
use whalemail.Prelude.{ℕ, Bool, Option, List}
use whalemail.Prelude.Action.{Action}
use whalemail.Text.{Text}
use whalemail.Envelope.{MailAddress}
use whalemail.MultiMap.{MultiMap}
use whalemail.Auth.Session.{Sasl}
use whalemail.Net.{IoError, Socket, send_to}
use whalemail.Maildir.{Storage}
use whalemail.Queue.{Queue}

-- The captures are those of the three regular expressions of the server and the match of the one
-- in src/auth.rs: the groups 1 and 2 of AUTH, the group 1 of MAIL and RCPT.
pub record Crates (Session M : Type 0) : Type 0 where
  pub auth_captures : Text → Option (Option Text × Option Text)
  pub mail_captures : Text → Option (Option Text)
  pub rcpt_captures : Text → Option (Option Text)
  pub plain_auth_msg : Text → Bool
  pub base64_decode : Text → Option (List ℕ)
  pub sasl : Sasl Session
  pub multimap : MultiMap MailAddress M
  pub path_push : Text → Text → Text
  -- the system clock before the n-th call of the file system, in seconds since 1970, `none` if earlier
  pub unix_time : ℕ → Option ℕ
  -- a random id, and the state of the generator behind it
  pub new_v4 : ℕ → ℕ × ℕ

-- `ConnectionWriter`, `Storage` and `Queue` of `SmtpServer`, and the random generator. Outside of
-- tests a `ConnectionWriter` always holds a connection.
pub record Env : Type 0 where
  pub socket : Socket
  pub storage : Storage
  pub queue : Queue
  pub rng : ℕ

-- `ConnectionWriter::send`
unfoldable pub send : Text → Action IoError Env (Unit {0})
send msg env = let r = send_to msg env.socket in (r.0, record env { socket = r.1 })
