-- ===== src/Smtp/Unchecked.antt =====
-- The permission of a sender after HELO and after EHLO.
use whalemail.Prelude.{Bool, true, false, ◌≡◌, refl, ap, Option, none, some, if◌then◌else◌}
use whalemail.Prelude.Action.{done, pure, ◌>>◌}
use whalemail.Text.{Text}
use whalemail.Config.{Hostname}
use whalemail.UserDb.{UserDb}
use whalemail.Envelope.{MailAddress, new_address, cached_is_local}
use whalemail.Envelope.Pieces.{IsFree, new_address_iff}
use whalemail.Command.{Command}
use whalemail.User.{User}
use whalemail.Postgres.Login.{may_send_as-short_name}
use whalemail.Smtp.Crates.{Env, send}
use whalemail.Smtp.State.{helo, ehlo, mail, msg_ok, msg_unauthorized}
use whalemail.Smtp.Mail.{parse_address, has_permission, accept_mail, check_sender, mail_from}

-- without a cached answer the database is asked
asked :
    (is_local : MailAddress → Option Bool) (a : MailAddress) (b : Bool)
    → a.is_local_mailbox ≡ none
    → is_local a ≡ some b
    → cached_is_local is_local a ≡ (some b, record a { is_local_mailbox = some b })
unfolding cached_is_local
asked is_local a b e h = rw (e, cached_is_local, h) refl

module _ (db : UserDb) (captures : Text → Option (Option Text)) (hostname : Hostname)
    (cmd : Command) (t : Text) (a : MailAddress) (env : Env)
    (parsed : parse_address captures cmd ≡ some t) (address : new_address t hostname ≡ some a)
    (local : db.is_local_mailbox a ≡ some true) where
  no_cache : a.is_local_mailbox ≡ none
  no_cache = ap (λ b. b.is_local_mailbox) ((new_address_iff t hostname a).0 address).0

  looked_up :
      cached_is_local db.is_local_mailbox a ≡ (some true, record a { is_local_mailbox = some true })
  looked_up = asked db.is_local_mailbox a true no_cache local

  -- If MAIL names a local mailbox and the replies can be sent, a client that said HELO may send as that
  -- mailbox without authorization, and one that said EHLO may not.
  pub mail_from-local :
      (Session : Type 0)
      → (send msg_ok env).0 ≡ done tt
      → (send msg_unauthorized env).0 ≡ done tt
      → ((mail_from {Session = Session} db captures hostname cmd helo env).0
          ≡ done (
              mail (record {
                sender = record a { is_local_mailbox = some true };
                is_local_sender = true;
                authorized = none;
              })))
        × ((mail_from {Session = Session} db captures hostname cmd
              (ehlo (record { authorized = none }))
              env).0
            ≡ done (ehlo (record { authorized = none })))
  unfolding mail_from check_sender accept_mail has_permission
  mail_from-local Session sent refused =
      (rw (parsed, address, sent, looked_up) refl, rw (parsed, address, looked_up, refused) refl)

-- For a user whose identity is a name without `@`, and any address that the server parses and of which
-- the user database tells whether it is local, MAIL after EHLO is answered as for a client that is not
-- logged in: a local address is refused, the user's own mailbox included, and every other is accepted.
pub check_sender-short_name :
    {Session : Type 0} (db : UserDb) (user : User) (s : Text) (hostname : Hostname)
    (a : MailAddress) (local : Bool) (env : Env)
    → IsFree user.identity
    → new_address s hostname ≡ some a
    → db.is_local_mailbox a ≡ some local
    → check_sender {Session = Session} db (ehlo (record { authorized = some user })) a env ≡ (
        if local
        then (do send msg_unauthorized; pure (ehlo (record { authorized = some user }))) env
        else accept_mail db (record a { is_local_mailbox = some false }) (some user) env)
unfolding check_sender has_permission
check_sender-short_name {Session} db user s hostname a local env free e h = by_answer local (
    asked db.is_local_mailbox a local
      (ap (λ b. b.is_local_mailbox) ((new_address_iff s hostname a).0 e).0) h)
  where
    by_answer :
        (b : Bool)
        → cached_is_local db.is_local_mailbox a ≡ (some b, record a { is_local_mailbox = some b })
        → check_sender {Session = Session} db (ehlo (record { authorized = some user })) a env ≡ (
            if b
            then (do send msg_unauthorized; pure (ehlo (record { authorized = some user }))) env
            else accept_mail db (record a { is_local_mailbox = some false }) (some user) env)
    by_answer true c = rw (c, may_send_as-short_name user s hostname a free e, check_sender) refl
    by_answer false c = rw (c, check_sender) refl
