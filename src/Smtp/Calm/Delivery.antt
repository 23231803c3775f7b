-- ===== src/Smtp/Calm/Delivery.antt =====
-- Delivering a mail does not panic.
use whalemail.Prelude.{
  ℕ, Option, none, some, length, ◌≢◌, refl, List, [], ◌∷◌, inl, inr, Bool-cases,
}
use whalemail.Prelude.Outcome.{Result, ok, err}
use whalemail.Prelude.Action.{Outcome, done, failed, panicked, lift}
use whalemail.Prelude.Calm.{Calm, Calm-pure, Calm-fail, Calm-then}
use whalemail.Text.{Text}
use whalemail.UserDb.{HasHomes, UserDb, DbError}
use whalemail.Maildir.Stored.{HasClock}
use whalemail.Envelope.{MailAddress, Envelope}
use whalemail.MultiMap.{IsMultiMap}
use whalemail.Net.{IoError}
use whalemail.Maildir.{
  DiskCall, create_dir_all, disk_call, build_new_dir, write_mail, Storage, maildir_file_name,
  name_at, write_named, store,
}
use whalemail.Queue.Groups.{add-eq}
use whalemail.Smtp.Crates.{Crates}
use whalemail.Smtp.Delivery.{
  MailboxDeliveryError, no_such_user, find_mailboxes, mailbox_error, store_mail, store_all,
  store_found, deliver_local_mail, enqueue, deliver_locals, deliver_mail,
}

module _ {Session M : Type 0} (crates : Crates Session M) (db : UserDb)
    (laws : IsMultiMap crates.multimap) (clock : HasClock crates.unix_time)
    (homes : HasHomes db) where
  lift-Calm : {E S A : Type 0} (r : Result E A) (s : S) → (lift r s).0 ≢ panicked
  lift-Calm (ok a) s e = cc
  lift-Calm (err x) s e = cc

  disk_call-Calm : (c : DiskCall) → Calm (disk_call c)
  unfolding disk_call
  disk_call-Calm c = record { at = λ s. lift-Calm (s.disk.answers (length s.disk.calls)) _ }

  write_mail-Calm : (dir body : Text) → Calm (write_mail crates.path_push crates.unix_time dir body)
  unfolding maildir_file_name
  write_mail-Calm dir body = record {
    at = λ s. named s (crates.unix_time (length s.disk.calls)) (clock _);
  }
    where
      named :
          (s : Storage) (o : Option ℕ)
          → o ≢ none
          → (write_named crates.path_push crates.unix_time dir body
              (name_at crates.path_push crates.unix_time s o)
              s).0
            ≢ panicked
      named s none n = absurd (n refl)
      named s (some t) n = (disk_call-Calm _).at s

  store-Calm :
      (e : Envelope) (a : MailAddress) (home : Text)
      → Calm (store crates.path_push crates.unix_time e a home)
  unfolding store
  store-Calm e a home = record {
    at = λ s.
        (Calm-then (disk_call-Calm (create_dir_all (build_new_dir crates.path_push s home a)))
            (write_mail-Calm (build_new_dir crates.path_push s home a) e.body)).at
          s;
  }

  mailbox_error-Calm :
      (o : Outcome IoError (Unit {0})) → o ≢ panicked → mailbox_error crates db o ≢ panicked
  mailbox_error-Calm (done u) n h = cc
  mailbox_error-Calm (failed e) n h = cc
  mailbox_error-Calm panicked n h = n refl

  store_mail-Calm : (e : Envelope) (m : MailAddress × Text) → Calm (store_mail crates db e m)
  unfolding store_mail
  store_mail-Calm e m = record {
    at = λ env. mailbox_error-Calm _ ((store-Calm e m.0 m.1).at env.storage);
  }

  store_all-Calm : (e : Envelope) (ms : List (MailAddress × Text)) → Calm (store_all crates db e ms)
  unfolding store_all
  store_all-Calm e [] = Calm-pure _
  store_all-Calm e (m ∷ ms) = Calm-then (store_mail-Calm e m) (store_all-Calm e ms)

  find_mailboxes-HasHomes : (rs : List MailAddress) → find_mailboxes db rs ≢ panicked
  unfolding find_mailboxes
  find_mailboxes-HasHomes [] = λ e. cc
  find_mailboxes-HasHomes (r ∷ rs) =
      found (db.get_mailboxhome r) (find_mailboxes db rs) (homes r) (find_mailboxes-HasHomes rs)
    where
      found :
          (o : Outcome DbError Text) (p : Outcome MailboxDeliveryError (List (MailAddress × Text)))
          → o ≢ panicked
          → p ≢ panicked
          → (elim o as (λ _. Outcome MailboxDeliveryError (List (MailAddress × Text))) [
            | failed e ↦ failed (no_such_user r.address)
            | panicked ↦ panicked
            | done mb ↦ elim p [
              | failed e ↦ failed e
              | panicked ↦ panicked
              | done ms ↦ done ((r, mb) ∷ ms)
            ]
          ])
            ≢ panicked
      found (failed x) p n m = λ e. cc
      found panicked p n m = absurd (n refl)
      found (done mb) (failed x) n m = λ e. cc
      found (done mb) panicked n m = m
      found (done mb) (done ms) n m = λ e. cc

  store_found-Calm :
      (e : Envelope) (r : Outcome MailboxDeliveryError (List (MailAddress × Text)))
      → r ≢ panicked
      → Calm (store_found crates db e r)
  store_found-Calm e (failed x) n = Calm-fail x
  store_found-Calm e panicked n = absurd (n refl)
  store_found-Calm e (done ms) n = store_all-Calm e ms

  deliver_locals-Calm :
      (e : Envelope) (rs : List MailAddress) → Calm (deliver_locals crates db e rs)
  unfolding deliver_local_mail
  deliver_locals-Calm e [] = Calm-pure tt
  deliver_locals-Calm e (r ∷ rs) =
      store_found-Calm e (find_mailboxes db (r ∷ rs)) (find_mailboxes-HasHomes (r ∷ rs))

  enqueue-Calm : (e : Envelope) (m : M) → Calm (enqueue crates db e m)
  unfolding enqueue
  enqueue-Calm e m = elim (Bool-cases (crates.multimap.is_empty m)) [
    | inl y ↦ rw (y, enqueue) (record { at = λ env h. cc })
    | inr n ↦
        rw (n, enqueue)
          (record { at = λ env. rw (add-eq crates.multimap laws env.queue e m) (λ h. cc) })
  ]

  pub deliver_mail-Calm : (e : Envelope) → Calm (deliver_mail crates db e)
  unfolding deliver_mail
  deliver_mail-Calm e = Calm-then (enqueue-Calm e _) (deliver_locals-Calm e _)
