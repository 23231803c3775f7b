-- ===== src/Postgres.antt =====
-- src/userdb/drivers/postgres.rs: the user database behind the trait `UserDB`. The server of the
-- database is a parameter: what it answers to a connection string and to the two queries.
pub mod Login
use whalemail.Prelude.{ℕ, Bool, true, false, not, Option, none, some, List, [], ◌∷◌, ◌++◌}
use whalemail.Prelude.Outcome.{Result, ok, err}
use whalemail.Prelude.Action.{Outcome, done, failed, panicked}
use whalemail.Text.{Text, codes}
use whalemail.Config.{Hostname, UserDbConfig}
use whalemail.User.{Authorized}
use whalemail.Envelope.{MailAddress, at_sign, new_address}
use whalemail.UserDb.{UserDb, DbError, db_error}

-- An error is a number. The first query has the user's name, the domain and the password for
-- arguments and rows of a name and a domain; the second has the name and the domain for arguments and
-- rows of a home, where `none` is a column that is no text.
pub record Client : Type 0 where
  pub query_users : Text → Text → Text → Result ℕ (List (Text × Text))
  pub query_homes : Text → Text → Result ℕ (List (Option Text))

pub record Postgres : Type 0 where
  pub hostname : Hostname
  pub client : Client

abbrev pub connection_string : UserDbConfig → Text
connection_string config =
    codes "host=localhost user="
    ++ (config.postgres_username
        ++ (codes " password="
            ++ (config.postgres_password ++ (codes " dbname=" ++ config.postgres_database))))

-- `Postgres::build`, for the `connect` of the database's crate
unfoldable pub build : (Text → Result ℕ Client) → UserDbConfig → Result DbError Postgres
build connect config = elim (connect (connection_string config)) [
  | err e ↦ err db_error
  | ok client ↦ ok (record { hostname = config.hostname; client = client })
]

abbrev pub is_empty : {A : Type 0} → List A → Bool
is_empty [] = true
is_empty (x ∷ xs) = false

-- the closure on an error, and what is made of the rows
abbrev pub any_row : Result ℕ (List (Text × Text)) → Result DbError Bool
any_row (err e) = err db_error
any_row (ok rows) = ok (not (is_empty rows))

abbrev pub query_user : Client → Text → Option MailAddress → Result DbError Bool
query_user client password none = ok false
query_user client password (some a) = any_row (client.query_users a.local_part a.domain password)

-- the address of the user's name, or of the name at the host name
abbrev pub or_at_host : Text → Hostname → Option MailAddress → Option MailAddress
or_at_host username hostname (some a) = some a
or_at_host username hostname none = new_address (username ++ (at_sign ++ hostname)) hostname

unfoldable pub authenticate : Postgres → Authorized → Text → Result DbError Bool
unfolding new_address
authenticate db authorized password =
    query_user db.client password
      (or_at_host authorized.username db.hostname (new_address authorized.username db.hostname))

-- the one row's column, for which `Row::get` panics if it is no text
abbrev pub only_row : Result ℕ (List (Option Text)) → Outcome DbError Text
only_row (err e) = failed db_error
only_row (ok []) = failed db_error
only_row (ok (none ∷ [])) = panicked
only_row (ok (some home ∷ [])) = done home
only_row (ok (row ∷ other ∷ rows)) = failed db_error

unfoldable pub get_mailboxhome : Postgres → MailAddress → Outcome DbError Text
get_mailboxhome db rcpt = only_row (db.client.query_homes rcpt.local_part rcpt.domain)

abbrev pub is_ok : {E A : Type 0} → Outcome E A → Option Bool
is_ok (done a) = some true
is_ok (failed e) = some false
is_ok panicked = none

unfoldable pub is_local_mailbox : Postgres → MailAddress → Option Bool
unfolding get_mailboxhome
is_local_mailbox db rcpt = is_ok (get_mailboxhome db rcpt)

-- `impl UserDB for Postgres`
unfoldable pub user_db : Postgres → UserDb
unfolding authenticate get_mailboxhome is_local_mailbox
user_db db = record {
  authenticate = authenticate db;
  get_mailboxhome = get_mailboxhome db;
  is_local_mailbox = is_local_mailbox db;
}
