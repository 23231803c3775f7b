-- ===== src/Tests/Mocks.antt =====
-- The mocked user and mailbox against tables of one row, at concrete inputs.
use whalemail.Prelude.{◌&&◌, ◌≡◌, refl, some, [], ◌∷◌, if◌then◌else◌, Bool-cases, inl, inr}
use whalemail.Prelude.Outcome.{ok}
use whalemail.Text.{codes, text_eq, contains, starts_with}
use whalemail.User.{Authorized}
use whalemail.Envelope.Pieces.{IsFree}
use whalemail.Postgres as Pg
use whalemail.MockDb.{
  new_mock, mock_user, mock_mailbox, mock_authenticate, mock_mailboxhome, mock_is_local,
}
use whalemail.MockDb.Agrees.{OneUser, OneHome, authenticate-mock, get_mailboxhome-mock}
use whalemail.Tests.Library.{host}
use whalemail.Tests.Start.{own_address, own_address-parsed}

-- the tables of the user and of the mailbox a@h.tld
abbrev one_row : Pg.Postgres
one_row = record {
  hostname = host;
  client = record {
    query_users = λ name domain given. ok (
        if (text_eq name (codes "a") && text_eq domain host) && text_eq given (codes "pw")
        then (name, domain) ∷ []
        else []);
    query_homes = λ name domain. ok (
        if text_eq name (codes "a") && text_eq domain host
        then some (codes "testmails/%{user}") ∷ []
        else []);
  };
}

a-IsFree : IsFree (codes "a")
unfolding contains starts_with
a-IsFree = refl

host-IsFree : IsFree host
unfolding contains starts_with
host-IsFree = refl

one_row-OneUser : OneUser one_row (codes "a") host (codes "pw") a-IsFree host-IsFree
one_row-OneUser name domain given =
    elim (Bool-cases
      ((text_eq name (codes "a") && text_eq domain host) && text_eq given (codes "pw"))) [
        | inl y ↦ rw y refl
        | inr n ↦ rw n refl
      ]

one_row-OneHome : OneHome one_row (codes "a") host (codes "pw") a-IsFree host-IsFree
one_row-OneHome name domain = refl

-- the short form of the user's name
abbrev a_login : Authorized
a_login = record { hostname = host; identity = codes "a"; username = codes "a" }

authenticate-mock_example :
    Pg.authenticate one_row a_login (codes "pw")
    ≡ mock_authenticate host
        (mock_user (codes "a@h.tld") (codes "pw") new_mock)
        a_login
        (codes "pw")
authenticate-mock_example =
    authenticate-mock one_row (codes "a") host (codes "pw") a-IsFree host-IsFree one_row-OneUser
      new_mock a_login (codes "pw") refl

get_mailboxhome-mock_example :
    (mock_mailboxhome (mock_mailbox own_address new_mock) own_address
      ≡ Pg.get_mailboxhome one_row own_address)
    × (some (mock_is_local (mock_mailbox own_address new_mock) own_address)
        ≡ Pg.is_local_mailbox one_row own_address)
get_mailboxhome-mock_example =
    get_mailboxhome-mock one_row (codes "a") host (codes "pw") a-IsFree host-IsFree one_row-OneHome
      new_mock (codes "a@h.tld") host own_address own_address-parsed
