-- ===== src/MockDb.antt =====
-- src/userdb/drivers/mock_db.rs: the user database of the tests. The host name of the configuration,
-- which `hostname()` reads, is an argument.
pub mod Agrees
use whalemail.Prelude.{Bool, false, ◌&&◌, ◌||◌, Option, none, some, [], ◌++◌, if◌then◌else◌}
use whalemail.Prelude.Outcome.{Result, ok, err}
use whalemail.Prelude.Action.{Outcome, done, failed, panicked}
use whalemail.Text.{Text, codes, text_eq}
use whalemail.Config.{Hostname}
use whalemail.User.{Authorized}
use whalemail.Envelope.{MailAddress, at_sign, address_eq}
use whalemail.UserDb.{DbError, db_error}

pub record MockDb : Type 0 where
  pub username : Text
  pub password : Text
  pub mailbox : Option MailAddress

-- `MockDB::new`
unfoldable pub new_mock : MockDb
new_mock = record { username = []; password = []; mailbox = none }

unfoldable pub mock_user : Text → Text → MockDb → MockDb
mock_user username password db = record db {
  username = username;
  password = password;
  mailbox = none;
}

unfoldable pub mock_mailbox : MailAddress → MockDb → MockDb
mock_mailbox mailbox db = record db { username = []; password = []; mailbox = some mailbox }

unfoldable pub mock_authenticate : Hostname → MockDb → Authorized → Text → Result DbError Bool
unfolding text_eq
mock_authenticate hostname db authorized password = ok (
    (text_eq authorized.identity db.username && text_eq password db.password)
    || (text_eq db.username (authorized.identity ++ (at_sign ++ hostname))
        && text_eq password db.password))

unfoldable pub mock_mailboxhome : MockDb → MailAddress → Outcome DbError Text
unfolding address_eq
mock_mailboxhome db rcpt = elim db.mailbox [
  | none ↦ panicked
  | some mailbox ↦
      if address_eq rcpt mailbox then done (codes "testmails/%{user}") else failed db_error
]

unfoldable pub mock_is_local : MockDb → MailAddress → Bool
unfolding address_eq
mock_is_local db address = elim db.mailbox [
  | none ↦ false
  | some mailbox ↦ address_eq address mailbox
]
