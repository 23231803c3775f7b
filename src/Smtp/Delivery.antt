-- ===== src/Smtp/Delivery.antt =====
-- `DataState::deliver_local_mail` and `DataState::deliver_mail`, and `MailboxDeliveryError` of
-- src/smtp/error.rs.
pub mod Local
use whalemail.Prelude.{
  Bool, true, false, not, Option, none, some, List, [], ◌∷◌, ◌++◌, if◌then◌else◌,
}
use whalemail.Prelude.Outcome.{Result, ok, err}
use whalemail.Prelude.Action.{Outcome, done, failed, panicked, Action, pure, fail, panic, ◌>>◌}
use whalemail.Text.{Text}
use whalemail.Envelope.{MailAddress, Envelope}
use whalemail.UserDb.{UserDb}
use whalemail.Net.{IoError}
use whalemail.Maildir.{store}
use whalemail.Queue.{Queue, add}
use whalemail.Smtp.Crates.{Crates, Env}

-- `mailbox_io` carries the error whose text the source formats
pub data MailboxDeliveryError : Type 0 where
  no_such_user : Text → MailboxDeliveryError
  mailbox_io : IoError → MailboxDeliveryError

-- the first loop of `deliver_local_mail`
unfoldable pub find_mailboxes :
    UserDb → List MailAddress → Outcome MailboxDeliveryError (List (MailAddress × Text))
find_mailboxes db [] = done []
find_mailboxes db (r ∷ rs) = elim (db.get_mailboxhome r) [
  | failed e ↦ failed (no_such_user r.address)
  | panicked ↦ panicked
  | done mb ↦ elim (find_mailboxes db rs) [
    | failed e ↦ failed e
    | panicked ↦ panicked
    | done ms ↦ done ((r, mb) ∷ ms)
  ]
]

abbrev pub is_nil : {A : Type 0} → List A → Bool
is_nil [] = true
is_nil (x ∷ xs) = false

module _ {Session M : Type 0} (crates : Crates Session M) (db : UserDb) where
  abbrev pub mailbox_error : Outcome IoError (Unit {0}) → Outcome MailboxDeliveryError (Unit {0})
  mailbox_error (done u) = done u
  mailbox_error (failed e) = failed (mailbox_io e)
  mailbox_error panicked = panicked

  -- `storage.store` on the storage of the environment
  unfoldable pub store_mail :
      Envelope → MailAddress × Text → Action MailboxDeliveryError Env (Unit {0})
  store_mail envelope m env =
      let r = store crates.path_push crates.unix_time envelope m.0 m.1 env.storage in
      (mailbox_error r.0, record env { storage = r.1 })

  -- the second loop of `deliver_local_mail`
  unfoldable pub store_all :
      Envelope → List (MailAddress × Text) → Action MailboxDeliveryError Env (Unit {0})
  store_all envelope [] = pure tt
  store_all envelope (m ∷ ms) = do store_mail envelope m; store_all envelope ms

  abbrev pub store_found :
      Envelope
      → Outcome MailboxDeliveryError (List (MailAddress × Text))
      → Action MailboxDeliveryError Env (Unit {0})
  store_found envelope (failed e) = fail e
  store_found envelope panicked = panic
  store_found envelope (done ms) = store_all envelope ms

  unfoldable pub deliver_local_mail :
      Envelope → List MailAddress → Action MailboxDeliveryError Env (Unit {0})
  deliver_local_mail envelope recipients = store_found envelope (find_mailboxes db recipients)

  -- the loop of `deliver_mail` over the recipients
  unfoldable pub sort_recipients : List MailAddress → List MailAddress → M → List MailAddress × M
  sort_recipients [] locals remotes = (locals, remotes)
  sort_recipients (r ∷ rs) locals remotes = elim r.is_local_responsibility [
    | true ↦ sort_recipients rs (locals ++ r ∷ []) remotes
    | false ↦ sort_recipients rs locals (crates.multimap.insert remotes r.domain r)
  ]

  abbrev pub keep_queue : Option Queue → Action MailboxDeliveryError Env (Unit {0})
  keep_queue none env = (panicked, env)
  keep_queue (some q) env = (done tt, record env { queue = q })

  unfoldable pub enqueue : Envelope → M → Action MailboxDeliveryError Env (Unit {0})
  enqueue envelope remotes env =
      if not (crates.multimap.is_empty remotes)
      then keep_queue (add crates.multimap env.queue envelope remotes) env
      else (done tt, env)

  abbrev pub deliver_locals :
      Envelope → List MailAddress → Action MailboxDeliveryError Env (Unit {0})
  deliver_locals envelope locals =
      if not (is_nil locals) then deliver_local_mail envelope locals else pure tt

  unfoldable pub deliver_mail : Envelope → Action MailboxDeliveryError Env (Unit {0})
  deliver_mail envelope =
      let sorted = sort_recipients envelope.recipients [] crates.multimap.new in
      do enqueue envelope sorted.1; deliver_locals envelope sorted.0
