-- ===== src/Postgres/Login.antt =====
-- Which account of the database a login is for, and who may send as a local mailbox once logged in.
use whalemail.Prelude.{
  false, ◌≡◌, refl, ap, ◌∙◌, Option, none, some, [], ◌∷◌, ◌++◌, append_assoc, inl, inr, Bool-cases,
}
use whalemail.Prelude.Outcome.{ok}
use whalemail.Text.{Text, text_eq}
use whalemail.Text.Laws.{eq_of_text_eq}
use whalemail.Config.{Hostname}
use whalemail.User.{User, Authorized}
use whalemail.Envelope.{MailAddress, at_sign, of_pieces, new_address}
use whalemail.Envelope.Pieces.{
  IsFree, at, split-IsFree, split-at, split-cons_eq, of_parts, IsPrinted, contains-at,
  new_address_iff,
}
use whalemail.Postgres.{Postgres, any_row, authenticate}
use whalemail.Smtp.Mail.{may_send_as}

new_address-IsFree : (s : Text) (hostname : Hostname) → IsFree s → new_address s hostname ≡ none
unfolding new_address of_pieces
new_address-IsFree s hostname h = rw (split-IsFree s h, of_pieces) refl

pub new_address-at :
    (l d : Text) (hostname : Hostname)
    → IsFree l
    → IsFree d
    → new_address (at l d) hostname ≡ some (of_parts l d hostname)
new_address-at l d hostname hl hd =
    (new_address_iff (at l d) hostname (of_parts l d hostname)).1 (refl, refl, hl, hd)

pub at-append : (l d t : Text) → at l d ++ t ≡ at l (d ++ t)
at-append l d t = append_assoc l (at_sign ++ d) t

pub new_address-two :
    (l m r : Text) (hostname : Hostname)
    → IsFree l
    → IsFree m
    → new_address (at l (at m r)) hostname ≡ none
unfolding new_address of_pieces
new_address-two l m r hostname hl hm =
    let (c, cs, e) = split-cons_eq r in
    ap (of_pieces (at l (at m r)) hostname)
      (split-at l (at m r) hl ∙ ap (λ cs. l ∷ cs) (split-at m r hm ∙ ap (λ cs. m ∷ cs) e))

module _ (db : Postgres) (authorized : Authorized) (password : Text) where
  abbrev pub Answers : Option (Text × Text) → Type 0
  Answers none = authenticate db authorized password ≡ ok false
  Answers (some (name, domain)) =
      authenticate db authorized password ≡ any_row (db.client.query_users name domain password)

  -- With a host name without `@`: a user name without `@` is looked up at the host name, one with a
  -- single `@` is looked up as it stands, and one with more of them is refused.
  pub authenticate-account :
      IsFree db.hostname
      → ((IsFree authorized.username → Answers (some (authorized.username, db.hostname)))
          × ((l d : Text)
              → IsFree l
              → IsFree d
              → authorized.username ≡ at l d
              → Answers (some (l, d)))
          × ((l m r : Text)
              → IsFree l
              → IsFree m
              → authorized.username ≡ at l (at m r)
              → Answers none))
  unfolding authenticate
  authenticate-account host_free = (
    λ free.
        rw
          (
            new_address-IsFree authorized.username db.hostname free,
            new_address-at authorized.username db.hostname db.hostname free host_free,
          )
          refl,
    λ l d hl hd e. rw (e, new_address-at l d db.hostname hl hd) refl,
    λ l m r hl hm e.
        rw
          (
            e,
            new_address-two l m r db.hostname hl hm,
            at-append l (at m r) (at [] db.hostname),
            at-append m r (at [] db.hostname),
            new_address-two l m (r ++ at [] db.hostname) db.hostname hl hm,
          )
          refl,
  )

-- an identity without `@` is none of the addresses that the server parses
pub may_send_as-short_name :
    (user : User) (s : Text) (hostname : Hostname) (a : MailAddress)
    → IsFree user.identity
    → new_address s hostname ≡ some a
    → may_send_as (some user) a ≡ false
may_send_as-short_name user s hostname a free e =
    elim (Bool-cases (text_eq user.identity a.address)) [
      | inl y ↦ absurd (
          cc (
            free,
            eq_of_text_eq user.identity a.address y,
            ap (λ b. b.address) (printed.0),
            contains-at a.local_part a.domain,
          ))
      | inr n ↦ n
    ]
  where
    printed : IsPrinted s hostname a
    printed = (new_address_iff s hostname a).0 e
