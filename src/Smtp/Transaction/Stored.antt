-- ===== src/Smtp/Transaction/Stored.antt =====
-- A whole mail transaction whose mail is stored for every recipient.
use whalemail.Prelude.{
  some, Bool, none, ◌≡◌, refl, sym, ap, ◌∙◌, List, [], ◌∷◌, ◌++◌, All, append_assoc, append-nil,
  flatten,
}
use whalemail.Prelude.Action.{done, continue}
use whalemail.Text.{Text, codes}
use whalemail.Config.{Config}
use whalemail.UserDb.{UserDb}
use whalemail.MultiMap.{IsMultiMap}
use whalemail.Envelope.{MailAddress, Envelope}
use whalemail.Envelope.Pieces.{IsFree, at, of_parts}
use whalemail.Maildir.{DiskCall, build_new_dir}
use whalemail.Maildir.Stored.{HasClock, Answering, with_calls, Stores, store-Stores}
use whalemail.Regex.{IsCaptures}
use whalemail.Regex.Address.{IsSpelled}
use whalemail.Command.{CommandVerb}
use whalemail.Transparency.{mail_end}
use whalemail.Transparency.Stuffing.{line_start, stuff}
use whalemail.Smtp.Body.{handle_all, GoesOn, Ends}
use whalemail.Smtp.Crates.{Crates, Env}
use whalemail.Smtp.State.{init, datacomplete, msg_ok}
use whalemail.Smtp.Receive.{finish_mail, envelope_of, settle}
use whalemail.Smtp.Delivery.{store_mail, store_all, mailbox_error, deliver_mail, enqueue}
use whalemail.Smtp.Delivery.Local.{HasHome, homes, deliver_local_mail-homes}
use whalemail.Smtp.Outgoing.{IsLocal, may_send_to-none, sort_recipients-local, is_empty-new}
use whalemail.Smtp.Patterns.{mail_cmd, rcpt_cmd}
use whalemail.Smtp.Transaction.{
  Takes, Takes-left, Takes-right, after, IsCommand, IsRcpt, mail_state, reply-then,
}
use whalemail.Smtp.Transaction.Recipients.{addresses, replies, written_as}
use whalemail.Smtp.Transaction.Whole.{data_of, rest_of, handle_all-transaction}

module _ {Session M : Type 0} (crates : Crates Session M) (db : UserDb) where
  -- the calls that store a body for each of the mailboxes, in order
  abbrev pub StoresAll : Env → Text → List (MailAddress × Text) → List DiskCall → Type 0
  StoresAll env body [] cs = cs ≡ []
  StoresAll env body (m ∷ ms) cs =
      (ds es : List DiskCall) × (cs ≡ ds ++ es)
      × Stores crates.path_push env.storage body m.0 m.1 ds
      × StoresAll env body ms es

  abbrev pub on_disk : Env → List DiskCall → Env
  on_disk env cs = record env { storage = with_calls env.storage cs }

  store_mail-Stores :
      (e : Envelope) (m : MailAddress × Text) (env : Env)
      → HasClock crates.unix_time
      → Answering env.storage
      → (cs : List DiskCall) × Stores crates.path_push env.storage e.body m.0 m.1 cs
        × (store_mail crates db e m env ≡ (done tt, on_disk env (env.storage.disk.calls ++ cs)))
  unfolding store_mail
  store_mail-Stores e m env clock h =
      let (cs, stores, eq) =
        store-Stores crates.path_push crates.unix_time e m.0 m.1 env.storage clock h in
      (cs, stores, ap (λ r. (mailbox_error crates db r.0, record env { storage = r.1 })) eq)

  store_all-StoresAll :
      (e : Envelope) (ms : List (MailAddress × Text)) (env : Env)
      → HasClock crates.unix_time
      → Answering env.storage
      → (cs : List DiskCall) × StoresAll env e.body ms cs
        × (store_all crates db e ms env ≡ (done tt, on_disk env (env.storage.disk.calls ++ cs)))
  unfolding store_all build_new_dir
  store_all-StoresAll e [] env clock h =
      ([], refl, ap (λ cs. (done tt, on_disk env cs)) (sym (append-nil env.storage.disk.calls)))
  store_all-StoresAll e (m ∷ ms) env clock h =
      let (ds, stores, eq) = store_mail-Stores e m env clock h in
      let (es, all, eqs) =
        store_all-StoresAll e ms (on_disk env (env.storage.disk.calls ++ ds)) clock h in
      (
        ds ++ es,
        (ds, es, refl, stores, all),
        ap (λ r. continue r.0 (λ _. store_all crates db e ms) r.1) eq
            ∙ eqs
            ∙ ap (λ cs. (done tt, on_disk env cs)) (append_assoc env.storage.disk.calls ds es),
      )

  -- a mail to one or more local recipients with homes
  deliver_mail-homes :
      (e : Envelope) (r : MailAddress) (rs : List MailAddress) (env : Env)
      → IsMultiMap crates.multimap
      → All IsLocal (r ∷ rs)
      → (h : All (HasHome db) (r ∷ rs))
      → deliver_mail crates db (record e { recipients = r ∷ rs }) env
        ≡ store_all crates db (record e { recipients = r ∷ rs }) (homes db (r ∷ rs) h) env
  unfolding deliver_mail enqueue
  deliver_mail-homes e r rs env laws local h =
      rw
        (
          sort_recipients-local crates db (r ∷ rs) [] crates.multimap.new local,
          is_empty-new crates db laws,
          deliver_mail,
          enqueue,
        )
        (deliver_local_mail-homes crates db (record e { recipients = r ∷ rs }) env (r ∷ rs) h)

module _ {Session M : Type 0} (crates : Crates Session M) (config : Config) (db : UserDb) where
  addresses-IsLocal :
      (ps : List (Text × Text × Text))
      → All (IsRcpt config none) ps
      → All IsLocal (addresses config ps)
  addresses-IsLocal [] h = tt
  addresses-IsLocal (p ∷ ps) (h, hs) = (
    may_send_to-none config.hostname (of_parts p.1 p.2 config.hostname) h.4,
    addresses-IsLocal ps hs,
  )

  -- the environment behind the delivery: the random id is taken
  abbrev pub drawn : Env → Env
  drawn env = record env { rng = (crates.new_v4 env.rng).1 }

  module _ (rs : IsCaptures rcpt_cmd crates.rcpt_captures) (start last content : Text)
      (first : Text × Text × Text) (rcpts : List (Text × Text × Text)) (inputs : List Text)
      (h_start : IsCommand CommandVerb.data' start) (goes : All GoesOn inputs) (ends : Ends last)
      (sent : flatten inputs ++ last ≡ stuff line_start content ++ mail_end)
      (laws : IsMultiMap crates.multimap)
      (h : All (HasHome db) (addresses config (first ∷ rcpts))) where
    -- The mail of a transaction without authorization is stored for each recipient, and the client is
    -- answered 250 at its end.
    pub handle_all-stored :
        (hello sender l d : Text) (local : Bool) (env : Env)
        → Takes (replies config (first ∷ rcpts) ++ msg_ok ∷ []) env.socket
        → HasClock crates.unix_time
        → Answering env.storage
        → IsCaptures mail_cmd crates.mail_captures
        → IsCommand CommandVerb.helo hello
        → IsCommand CommandVerb.mail sender
        → db.is_local_mailbox (of_parts l d config.hostname) ≡ some local
        → IsFree l
        → IsFree d
        → IsSpelled (codes "MAIL FROM:<") sender (at l d)
        → All (IsRcpt config none) (first ∷ rcpts)
        → (cs : List DiskCall) × StoresAll crates db env
            (content ++ mail_end)
            (homes db (addresses config (first ∷ rcpts)) h)
            cs
          × (handle_all crates config db init
                (hello ∷ sender ∷ rest_of first rcpts start inputs last)
                env
              ≡ (
                done datacomplete,
                after
                    (replies config (first ∷ rcpts) ++ msg_ok ∷ [])
                    (drawn (on_disk crates db env (env.storage.disk.calls ++ cs))),
              ))
    unfolding finish_mail
    handle_all-stored hello sender l d local env w clock disk mails h_hello h_sender asked fl fd
          spelled h_rcpts =
        let state =
          data_of crates config db (mail_state crates config db none l d local) (first ∷ rcpts) in
        let before = drawn (after (replies config (first ∷ rcpts)) env) in
        let envelope = envelope_of crates state (content ++ mail_end) env in
        let (cs, stores, eq) =
          store_all-StoresAll crates db envelope (homes db (addresses config (first ∷ rcpts)) h)
            before clock disk in
        (
          cs,
          stores,
          handle_all-transaction crates config db rs start last content first rcpts inputs h_start
                goes ends sent hello sender l d local env
                (Takes-left (replies config (first ∷ rcpts)) (msg_ok ∷ []) env.socket w) mails
                h_hello h_sender asked fl fd spelled h_rcpts
              ∙ ap (settle crates db config.hostname state envelope) (
                  deliver_mail-homes crates db envelope _ _ before laws
                    (addresses-IsLocal (first ∷ rcpts) h_rcpts) h
                  ∙ eq)
              ∙ reply-then msg_ok _ _
                  (Takes-right (replies config (first ∷ rcpts)) (msg_ok ∷ []) env.socket w).0
              ∙ ap
                  (λ ms. (
                    done datacomplete,
                    written_as (drawn (on_disk crates db env (env.storage.disk.calls ++ cs))) ms,
                  ))
                  (append_assoc env.socket.written (replies config (first ∷ rcpts)) (msg_ok ∷ [])),
        )
