-- ===== src/UserDb.antt =====
-- src/userdb.rs: the trait `UserDB` and its error.
use whalemail.Prelude.{Bool, Option, none, ◌≢◌}
use whalemail.Prelude.Outcome.{Result}
use whalemail.Prelude.Action.{Outcome, panicked}
use whalemail.Text.{Text}
use whalemail.User.{Authorized}
use whalemail.Envelope.{MailAddress}

pub data DbError : Type 0 where
  db_error : DbError

-- An implementation may panic in the last two, as that of the tests and that of Postgres do; `none`
-- is a panic too. In neither of them does `authenticate`.
pub record UserDb : Type 0 where
  pub authenticate : Authorized → Text → Result DbError Bool
  pub get_mailboxhome : MailAddress → Outcome DbError Text
  pub is_local_mailbox : MailAddress → Option Bool

-- the database answers whether a mailbox is local
abbrev pub Answers : UserDb → Type 0
Answers db = (a : MailAddress) → db.is_local_mailbox a ≢ none

-- the database answers, of a home or with an error
abbrev pub HasHomes : UserDb → Type 0
HasHomes db = (a : MailAddress) → db.get_mailboxhome a ≢ panicked
