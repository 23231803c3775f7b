-- ===== src/Smtp/Outgoing.antt =====
-- Which mail reaches the outgoing queue.
pub mod Groups
pub mod Sorted
use whalemail.Prelude.{
  true, false, ◌≡◌, refl, sym, ap, subst, ℕ, ◌∙◌, none, List, [], ◌∷◌, ◌++◌, arith, All,
  append_assoc, append-nil,
}
use whalemail.Prelude.Outcome.{Result, ok, err}
use whalemail.Prelude.Action.{Outcome, done, failed, panicked}
use whalemail.Prelude.Keeps.{
  Keeps-panic, Returns, Returns-any, Keeps, Keeps-pure, Keeps-fail, Keeps-then,
}
use whalemail.Text.{Text, text_eq}
use whalemail.Config.{Hostname}
use whalemail.UserDb.{UserDb}
use whalemail.MultiMap.{IsMultiMap, has, is_some}
use whalemail.Text.Laws.{text_eq_refl}
use whalemail.Envelope.{MailAddress, Envelope}
use whalemail.Envelope.Laws.{new_address-local}
use whalemail.Maildir.{Storage}
use whalemail.Smtp.Crates.{Crates, Env}
use whalemail.Smtp.Rcpt.{may_send_to}
use whalemail.Smtp.Delivery.{
  MailboxDeliveryError, find_mailboxes, store_mail, store_all, store_found, deliver_local_mail,
  sort_recipients, enqueue, deliver_locals, deliver_mail,
}
use whalemail.Smtp.State.{DataState}
use whalemail.Smtp.Receive.{envelope_of}
use whalemail.Smtp.Invariant.{IsPermitted, IsValidData}
use whalemail.Smtp.Invariant.Receive.{Delivers}

-- a property of the environment that does not read the storage
abbrev pub StorageFree : (Env → Type 0) → Type 0
StorageFree I = (env : Env) (s : Storage) → I env → I (record env { storage = s })

abbrev pub Always : {A : Type 0} → A → Type 0
Always _ = Unit

abbrev pub IsLocal : MailAddress → Type 0
IsLocal a = a.is_local_responsibility ≡ true

nil_of_no_key : (ks : List Text) → ((k : Text) → has k ks ≡ false) → ks ≡ []
nil_of_no_key [] h = refl
nil_of_no_key (k ∷ ks) h = ground (arith, h k, text_eq_refl k)

pub may_send_to-none :
    (h : Hostname) (a : MailAddress) → may_send_to h none a ≡ true → text_eq h a.domain ≡ true
unfolding may_send_to
may_send_to-none h a e = ground arith

module _ {Session M : Type 0} (crates : Crates Session M) (db : UserDb) where
  module _ {I : Env → Type 0} (free : StorageFree I) where
    store_mail-Keeps :
        (e : Envelope) (m : MailAddress × Text) → Keeps I Always (store_mail crates db e m)
    unfolding store_mail
    store_mail-Keeps e m = record { at = λ env i. (free env _ i, Returns-any _) }

    store_all-Keeps :
        (e : Envelope) (ms : List (MailAddress × Text)) → Keeps I Always (store_all crates db e ms)
    unfolding store_all
    store_all-Keeps e [] = Keeps-pure tt tt
    store_all-Keeps e (m ∷ ms) = Keeps-then _ _ (store_mail-Keeps e m) (store_all-Keeps e ms)

    store_found-Keeps :
        (e : Envelope) (r : Outcome MailboxDeliveryError (List (MailAddress × Text)))
        → Keeps I Always (store_found crates db e r)
    store_found-Keeps e (failed x) = Keeps-fail x
    store_found-Keeps e panicked = Keeps-panic
    store_found-Keeps e (done ms) = store_all-Keeps e ms

    pub deliver_locals-Keeps :
        (e : Envelope) (rs : List MailAddress) → Keeps I Always (deliver_locals crates db e rs)
    unfolding deliver_local_mail
    deliver_locals-Keeps e [] = Keeps-pure tt tt
    deliver_locals-Keeps e (r ∷ rs) = store_found-Keeps e (find_mailboxes db (r ∷ rs))

  -- Local recipients are not entered in the map of remote ones.
  pub sort_recipients-local :
      (rs locals : List MailAddress) (m : M)
      → All IsLocal rs
      → sort_recipients crates db rs locals m ≡ (locals ++ rs, m)
  unfolding sort_recipients
  sort_recipients-local [] locals m h = ap (λ l. (l, m)) (sym (append-nil locals))
  sort_recipients-local (r ∷ rs) locals m (h, hs) =
      ground
        (arith, sort_recipients-local rs (locals ++ r ∷ []) m hs, append_assoc locals (r ∷ []) rs)

  module _ (laws : IsMultiMap crates.multimap) where
    pub is_empty-new : crates.multimap.is_empty crates.multimap.new ≡ true
    is_empty-new = (laws.is_empty_iff crates.multimap.new).1 (
        nil_of_no_key (crates.multimap.keys crates.multimap.new)
          λ k. laws.has-keys crates.multimap.new k ∙ ap is_some (laws.get_vec-new k))

    enqueue-new :
        {I : Env → Type 0} (e : Envelope) → Keeps I Always (enqueue crates db e crates.multimap.new)
    unfolding enqueue
    enqueue-new e = rw (is_empty-new, enqueue) (record { at = λ env i. (i, tt) })

    -- A mail to local recipients only is not queued.
    pub deliver_mail-local :
        {I : Env → Type 0}
        → StorageFree I
        → (e : Envelope) → All IsLocal e.recipients
        → Keeps I Always (deliver_mail crates db e)
    unfolding deliver_mail
    deliver_mail-local free e h =
        rw (sort_recipients-local e.recipients [] crates.multimap.new h, deliver_mail)
          (Keeps-then _ _ (enqueue-new e) (deliver_locals-Keeps free e e.recipients))

    -- what a client with no authorization may send to is local
    pub IsPermitted-IsLocal :
        (h : Hostname) (as' : List MailAddress) → All (IsPermitted h none) as' → All IsLocal as'
    IsPermitted-IsLocal h [] v = tt
    IsPermitted-IsLocal h (a ∷ as') v = (
      new_address-local a.address h v.0.parsed ∙ may_send_to-none h a v.0.permitted,
      IsPermitted-IsLocal h as' v.1,
    )

    -- A client with no authorization changes the storage only.
    pub Delivers-unauthorized :
        {I : Env → Type 0}
        → StorageFree I
        → ((env : Env) (g : ℕ) → I env → I (record env { rng = g }))
        → (h : Hostname) (d : DataState) → IsValidData db h d
        → d.authorized ≡ none
        → Delivers crates db I d
    Delivers-unauthorized free rng h d v n body env i =
        ((deliver_mail-local free (envelope_of crates d body env) (
            IsPermitted-IsLocal h d.recipients
              (subst (λ o. All (IsPermitted h o) d.recipients) n v.permitted))).at
          (record env { rng = (crates.new_v4 env.rng).1 }) (rng env _ i)).0
