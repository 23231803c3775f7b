-- ===== src/Smtp/Delivery/Local.antt =====
-- Local delivery looks up every mailbox before it stores anything.
use whalemail.Prelude.{◌≡◌, refl, ap, List, [], ◌∷◌, ◌++◌, arith, All}
use whalemail.Prelude.Action.{done, failed}
use whalemail.Text.{Text}
use whalemail.UserDb.{UserDb, DbError}
use whalemail.Envelope.{MailAddress, Envelope}
use whalemail.Smtp.Crates.{Crates, Env}
use whalemail.Smtp.Delivery.{
  no_such_user, find_mailboxes, store_all, store_found, deliver_local_mail,
}

-- the user database knows a home of the mailbox
abbrev pub HasHome : UserDb → MailAddress → Type 0
HasHome db a = (home : Text) × (db.get_mailboxhome a ≡ done home)

find_mailboxes-unknown :
    (db : UserDb) (known : List MailAddress) (r : MailAddress) (rs : List MailAddress) (e : DbError)
    → All (HasHome db) known
    → db.get_mailboxhome r ≡ failed e
    → find_mailboxes db (known ++ r ∷ rs) ≡ failed (no_such_user r.address)
unfolding find_mailboxes
find_mailboxes-unknown db [] r rs e h n = ground arith
find_mailboxes-unknown db (k ∷ ks) r rs e ((home, p), hs) n =
    ground (arith, p, find_mailboxes-unknown db ks r rs e hs n)

-- the recipients with their homes
abbrev pub homes :
    (db : UserDb) (rs : List MailAddress) → All (HasHome db) rs → List (MailAddress × Text)
homes db [] h = []
homes db (r ∷ rs) h = (r, h.0.0) ∷ homes db rs h.1

find_mailboxes-homes :
    (db : UserDb) (rs : List MailAddress) (h : All (HasHome db) rs)
    → find_mailboxes db rs ≡ done (homes db rs h)
unfolding find_mailboxes
find_mailboxes-homes db [] h = refl
find_mailboxes-homes db (r ∷ rs) h = ground (arith, h.0.1, find_mailboxes-homes db rs h.1)

module _ {Session M : Type 0} (crates : Crates Session M) (db : UserDb) where
  -- If the user database knows a home for each recipient before some recipient but none for that one,
  -- the delivery fails with that recipient's address and changes nothing.
  pub deliver_local_mail-unknown :
      (e : Envelope) (env : Env) (known : List MailAddress) (r : MailAddress)
      (rs : List MailAddress) (x : DbError)
      → All (HasHome db) known
      → db.get_mailboxhome r ≡ failed x
      → deliver_local_mail crates db e (known ++ r ∷ rs) env
        ≡ (failed (no_such_user r.address), env)
  unfolding deliver_local_mail
  deliver_local_mail-unknown e env known r rs x h n =
      ap (λ f. store_found crates db e f env) (find_mailboxes-unknown db known r rs x h n)

  -- If the user database knows a home for each recipient, the mail is stored for each of them, in
  -- order, up to the first error.
  pub deliver_local_mail-homes :
      (e : Envelope) (env : Env) (rs : List MailAddress) (h : All (HasHome db) rs)
      → deliver_local_mail crates db e rs env ≡ store_all crates db e (homes db rs h) env
  unfolding deliver_local_mail
  deliver_local_mail-homes e env rs h =
      ap (λ f. store_found crates db e f env) (find_mailboxes-homes db rs h)
