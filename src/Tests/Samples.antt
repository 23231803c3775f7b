-- ===== src/Tests/Samples.antt =====
-- A session of the server, message by message, and the replies.
use whalemail.Prelude.{List, [], ◌∷◌, map, ℕ}
use whalemail.Prelude.Outcome.{Result, ok}
use whalemail.Prelude.Action.{Outcome}
use whalemail.Text.{Text, codes}
use whalemail.Text.Utf8.{as_bytes}
use whalemail.Net.{IoError}
use whalemail.UserDb.{UserDb}
use whalemail.Smtp.Crates.{Env}
use whalemail.Smtp.Session.{Progress, server_loop}
use whalemail.Tests.Library.{test_crates, test_config, test_db, test_env, TestSession}

abbrev pub reads_of : List Text → List (Result IoError (List ℕ))
reads_of = map (λ s. ok (as_bytes s))

session : UserDb → List Text → Outcome IoError (Progress TestSession) × Env
session db msgs = server_loop test_crates test_config db (reads_of msgs) test_env

abbrev pub relay_attempt : List Text
relay_attempt =
    codes "EHLO x\r\n" ∷ codes "MAIL FROM:<b@x.tld>\r\n" ∷ codes "RCPT TO:<c@y.tld>\r\n" ∷ []

replies : List Text
replies = (session test_db relay_attempt).1.socket.written
