-- ===== src/MockDb/Agrees.antt =====
-- The user database of the tests against that of Postgres, for a table of one row.
use whalemail.Prelude.{
  Bool, true, false, ◌&&◌, ◌||◌, ◌≡◌, refl, sym, ap, subst, ◌∙◌, Option, none, some, [], ◌∷◌, arith,
  inl, inr, Option-cases, Bool-cases, if◌then◌else◌,
}
use whalemail.Prelude.Outcome.{ok}
use whalemail.Text.{Text, text_eq, codes}
use whalemail.Text.Laws.{text_eq_iff, text_eq_refl, eq_of_text_eq}
use whalemail.Config.{Hostname}
use whalemail.User.{Authorized}
use whalemail.Envelope.{MailAddress, new_address, address_eq}
use whalemail.Envelope.Pieces.{IsFree, at, of_parts, IsPrinted, new_address_iff}
use whalemail.Postgres.{
  Postgres, any_row, query_user, or_at_host, authenticate, get_mailboxhome, is_local_mailbox,
}
use whalemail.Postgres.Login.{new_address-at, new_address-two, at-append}
use whalemail.MockDb.{
  MockDb, mock_user, mock_mailbox, mock_authenticate, mock_mailboxhome, mock_is_local,
}

-- two tests that hold together are equal
same_test : {a b : Bool} → (a ≡ true → b ≡ true) → (b ≡ true → a ≡ true) → a ≡ b
same_test {a} {b} f g = ground (arith, f, g)

or_false : {b c : Bool} → c ≡ false → b ≡ (b || c)
or_false e = ground arith

and_or : (a b c : Bool) → ((a || b) && c) ≡ ((a && c) || (b && c))
and_or a b c = ground arith

text_eq_sym : (s t : Text) → text_eq s t ≡ text_eq t s
text_eq_sym s t =
    same_test (λ e. (text_eq_iff t s).1 (sym (eq_of_text_eq s t e)))
      (λ e. (text_eq_iff s t).1 (sym (eq_of_text_eq t s e)))

abbrev pub is_account : Text → Text → Option MailAddress → Bool
is_account l d none = false
is_account l d (some a) = text_eq a.local_part l && text_eq a.domain d

-- An address has the parts l and d if and only if its text is theirs.
new_address-is_account :
    (s : Text) (hostname : Hostname) (l d : Text)
    → IsFree l
    → IsFree d
    → is_account l d (new_address s hostname) ≡ text_eq s (at l d)
new_address-is_account s hostname l d hl hd = same_test there back
  where
    both :
        (a : MailAddress)
        → is_account l d (some a) ≡ true
        → (text_eq a.local_part l ≡ true) × (text_eq a.domain d ≡ true)
    both a e = (ground arith, ground arith)

    of_some :
        (a : MailAddress)
        → IsPrinted s hostname a
        → is_account l d (some a) ≡ true
        → text_eq s (at l d) ≡ true
    of_some a p e = (text_eq_iff s (at l d)).1 (
        sym p.1 ∙ ap (λ b. b.address) p.0 ∙ λ i.
        at (eq_of_text_eq a.local_part l (both a e).0 i) (eq_of_text_eq a.domain d (both a e).1 i))

    there : is_account l d (new_address s hostname) ≡ true → text_eq s (at l d) ≡ true
    there e = elim (Option-cases (new_address s hostname)) [
      | inl n ↦ ground arith
      | inr (a, p) ↦
          of_some a ((new_address_iff s hostname a).0 p) (sym (ap (is_account l d) p) ∙ e)
    ]

    back : text_eq s (at l d) ≡ true → is_account l d (new_address s hostname) ≡ true
    back e =
        rw
          (
            eq_of_text_eq s (at l d) e,
            new_address-at l d hostname hl hd,
            text_eq_refl l,
            text_eq_refl d,
          )
          refl

module _ (postgres : Postgres) (l d password : Text) (hl : IsFree l) (hd : IsFree d) where
  -- the table of the users has the row of l, d and the password only
  abbrev pub OneUser : Type 0
  OneUser =
      (name domain given : Text)
      → any_row (postgres.client.query_users name domain given)
        ≡ ok ((text_eq name l && text_eq domain d) && text_eq given password)

  queried :
      OneUser
      → (given : Text) (o : Option MailAddress)
      → query_user postgres.client given o ≡ ok (is_account l d o && text_eq given password)
  queried one given none = refl
  queried one given (some a) = one a.local_part a.domain given

  -- a name with an `@` does not parse at the host name
  at_host-none :
      (name : Text) (a : MailAddress)
      → new_address name postgres.hostname ≡ some a
      → new_address (at name postgres.hostname) postgres.hostname ≡ none
  at_host-none name a e =
      let p = (new_address_iff name postgres.hostname a).0 e in
      subst (λ s. new_address (at s postgres.hostname) postgres.hostname ≡ none)
        (sym (ap (λ b. b.address) p.0) ∙ p.1)
        (subst (λ s. new_address s postgres.hostname ≡ none)
          (sym (at-append a.local_part a.domain (at [] postgres.hostname)))
          (new_address-two a.local_part a.domain postgres.hostname postgres.hostname p.2 p.3))

  at_host-eq :
      (name : Text)
      → is_account l d (new_address (at name postgres.hostname) postgres.hostname)
        ≡ text_eq (at l d) (at name postgres.hostname)
  at_host-eq name =
      new_address-is_account (at name postgres.hostname) postgres.hostname l d hl hd
      ∙ text_eq_sym (at name postgres.hostname) (at l d)

  -- whether a login is for the account, under its name or under the name at the host name
  looked_up :
      (name : Text)
      → is_account l d (or_at_host name postgres.hostname (new_address name postgres.hostname))
        ≡ (text_eq name (at l d) || text_eq (at l d) (at name postgres.hostname))
  looked_up name = elim (Option-cases (new_address name postgres.hostname)) [
    | inl n ↦
        let first = new_address-is_account name postgres.hostname l d hl hd in
        let none_first = sym (ap (is_account l d) n) ∙ first in
        ap (λ o. is_account l d (or_at_host name postgres.hostname o)) n
        ∙ at_host-eq name
        ∙ ap (λ b. b || text_eq (at l d) (at name postgres.hostname)) none_first
    | inr (a, e) ↦
        let first = new_address-is_account name postgres.hostname l d hl hd in
        let second = sym (at_host-eq name) ∙ ap (is_account l d) (at_host-none name a e) in
        ap (λ o. is_account l d (or_at_host name postgres.hostname o)) e
        ∙ sym (ap (is_account l d) e)
        ∙ first
        ∙ or_false second
  ]

  -- If the table of the users has a single row, an address and a password, then the database answers to
  -- every login whose identity is its user name as the mocked user with that address and password does.
  pub authenticate-mock :
      OneUser
      → (mock : MockDb) (authorized : Authorized) (given : Text)
      → authorized.identity ≡ authorized.username
      → authenticate postgres authorized given
        ≡ mock_authenticate postgres.hostname (mock_user (at l d) password mock) authorized given
  unfolding authenticate mock_authenticate mock_user
  authenticate-mock one mock authorized given same =
      queried one given (
        or_at_host authorized.username postgres.hostname
          (new_address authorized.username postgres.hostname))
      ∙ ap (λ b. ok (b && text_eq given password)) (looked_up authorized.username)
      ∙ ap ok (
          and_or _ _ (text_eq given password)
          ∙ ap
              (λ name.
                (text_eq name (at l d) && text_eq given password)
                || (text_eq (at l d) (at name postgres.hostname) && text_eq given password))
              (sym same))

  -- the table of the mailboxes has the row of l, d and the home of the tests only
  abbrev pub OneHome : Type 0
  OneHome =
      (name domain : Text)
      → postgres.client.query_homes name domain
        ≡ ok (
            if text_eq name l && text_eq domain d
            then some (codes "testmails/%{user}") ∷ []
            else [])

  same_address :
      (s : Text) (hostname : Hostname) (rcpt : MailAddress)
      → new_address s hostname ≡ some rcpt
      → address_eq rcpt (of_parts l d hostname)
        ≡ (text_eq rcpt.local_part l && text_eq rcpt.domain d)
  unfolding address_eq
  same_address s hostname rcpt e =
      ap (λ t. text_eq t (at l d)) (((new_address_iff s hostname rcpt).0 e).1)
      ∙ sym (new_address-is_account s hostname l d hl hd)
      ∙ ap (is_account l d) e

  -- If the table of the mailboxes has a single row, an address and the home of the tests, then for
  -- every address that the server parses the database answers with the home, and whether the
  -- address is local, as the mocked mailbox of that address does, which does not panic.
  pub get_mailboxhome-mock :
      OneHome
      → (mock : MockDb) (s : Text) (hostname : Hostname) (rcpt : MailAddress)
      → new_address s hostname ≡ some rcpt
      → (mock_mailboxhome (mock_mailbox (of_parts l d hostname) mock) rcpt
          ≡ get_mailboxhome postgres rcpt)
        × (some (mock_is_local (mock_mailbox (of_parts l d hostname) mock) rcpt)
            ≡ is_local_mailbox postgres rcpt)
  unfolding mock_mailbox mock_mailboxhome mock_is_local get_mailboxhome is_local_mailbox
  get_mailboxhome-mock one mock s hostname rcpt e =
      elim (Bool-cases (text_eq rcpt.local_part l && text_eq rcpt.domain d)) [
        | inl y ↦ (
          rw (same_address s hostname rcpt e, one, y) refl,
          rw (same_address s hostname rcpt e, one, y) refl,
        )
        | inr n ↦ (
          rw (same_address s hostname rcpt e, one, n) refl,
          rw (same_address s hostname rcpt e, one, n) refl,
        )
      ]
