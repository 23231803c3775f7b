-- ===== src/Smtp/Outgoing/Groups.antt =====
-- How `DataState::deliver_mail` groups the remote recipients of a mail in the outgoing queue.
use whalemail.Prelude.{
  not, ◌&&◌, ◌||◌, ◌≡◌, refl, sym, subst, fun_ext, ap, ◌∙◌, some, List, [], ◌∷◌, ◌++◌, map, inl,
  inr, arith, if◌then◌else◌, Bool-cases, append_assoc, append-nil,
}
use whalemail.Prelude.Action.{done, Action, continue}
use whalemail.Text.{Text, text_eq}
use whalemail.Text.Laws.{eq_of_text_eq}
use whalemail.UserDb.{UserDb}
use whalemail.Envelope.{MailAddress, Envelope}
use whalemail.MultiMap.{IsMultiMap, values_of, is_some, has, Distinct}
use whalemail.Queue.{Entry, Queue}
use whalemail.Queue.Groups.{group_of, entries_for, add-eq}
use whalemail.Smtp.Crates.{Crates, Env}
use whalemail.Smtp.Delivery.{
  MailboxDeliveryError, is_nil, sort_recipients, enqueue, keep_queue, deliver_locals, deliver_mail,
}
use whalemail.Smtp.Outgoing.{deliver_locals-Keeps}

-- the recipients at a remote domain, in order
unfoldable pub remote_to : List MailAddress → Text → List MailAddress
remote_to [] d = []
remote_to (r ∷ rs) d =
    let rest = remote_to rs d in
    if not r.is_local_responsibility && text_eq r.domain d then r ∷ rest else rest

-- one group for each of the domains
abbrev pub remote_entries : Envelope → List Text → List Entry
remote_entries e [] = []
remote_entries e (d ∷ ds) =
    record { envelope = e; rcpt_groups = map (remote_to e.recipients) (d ∷ ds) } ∷ []

module _ {Session M : Type 0} (crates : Crates Session M) (db : UserDb)
    (laws : IsMultiMap crates.multimap) where
  abbrev sorted : List MailAddress → List MailAddress → M → M
  sorted rs locals m = (sort_recipients crates db rs locals m).1

  inserted :
      (m : M) (r : MailAddress) (d : Text)
      → crates.multimap.get_vec (crates.multimap.insert m r.domain r) d ≡ (
          if text_eq r.domain d
          then some (values_of (crates.multimap.get_vec m d) ++ r ∷ [])
          else crates.multimap.get_vec m d)
  inserted m r d = elim (Bool-cases (text_eq r.domain d)) [
    | inl e ↦
        subst
          (λ k. crates.multimap.get_vec (crates.multimap.insert m r.domain r) k ≡ (
            if text_eq r.domain k
            then some (values_of (crates.multimap.get_vec m k) ++ r ∷ [])
            else crates.multimap.get_vec m k))
          (eq_of_text_eq r.domain d e) (laws.get_vec-insert m r.domain r.domain r)
    | inr e ↦ laws.get_vec-insert m r.domain d r ∙ rw e refl
  ]

  get_vec-sorted :
      (rs locals : List MailAddress) (m : M) (d : Text)
      → (values_of (crates.multimap.get_vec (sorted rs locals m) d)
          ≡ values_of (crates.multimap.get_vec m d) ++ remote_to rs d)
        × (is_some (crates.multimap.get_vec (sorted rs locals m) d)
            ≡ (is_some (crates.multimap.get_vec m d) || not (is_nil (remote_to rs d))))
  unfolding sort_recipients remote_to
  get_vec-sorted [] locals m d = (sym (append-nil _), ground arith)
  get_vec-sorted (r ∷ rs) locals m d = elim (Bool-cases r.is_local_responsibility) [
    | inl y ↦
        let ih = get_vec-sorted rs (locals ++ r ∷ []) m d in
        (ground (arith, ih.0), ground (arith, ih.1))
    | inr n ↦
        let ih = get_vec-sorted rs locals (crates.multimap.insert m r.domain r) d in
        elim (Bool-cases (text_eq r.domain d)) [
          | inl e ↦ (
            ground (
              arith,
              ih.0,
              inserted m r d,
              append_assoc (values_of (crates.multimap.get_vec m d)) (r ∷ []) (remote_to rs d),
            ),
            ground (arith, ih.1, inserted m r d),
          )
          | inr e ↦ (ground (arith, ih.0, inserted m r d), ground (arith, ih.1, inserted m r d))
        ]
  ]

  abbrev remotes : Envelope → M
  remotes e = sorted e.recipients [] crates.multimap.new

  remotes-group :
      (e : Envelope) (d : Text)
      → group_of crates.multimap laws (remotes e) d ≡ remote_to e.recipients d
  unfolding group_of
  remotes-group e d =
      (get_vec-sorted e.recipients [] crates.multimap.new d).0
      ∙ ap (λ o. values_of o ++ remote_to e.recipients d) (laws.get_vec-new d)

  remotes-has :
      (e : Envelope) (d : Text)
      → has d (crates.multimap.keys (remotes e)) ≡ not (is_nil (remote_to e.recipients d))
  remotes-has e d =
      laws.has-keys (remotes e) d
      ∙ ((get_vec-sorted e.recipients [] crates.multimap.new d).1
          ∙ ap (λ o. is_some o || not (is_nil (remote_to e.recipients d))) (laws.get_vec-new d))

  remote_entries-eq :
      (e : Envelope) (ds : List Text)
      → entries_for crates.multimap laws e (remotes e) ds ≡ remote_entries e ds
  remote_entries-eq e [] = refl
  remote_entries-eq e (d ∷ ds) =
      ap (λ f. record { envelope = e; rcpt_groups = map f (d ∷ ds) } ∷ [])
        (fun_ext (remotes-group e))

  abbrev pub added : Queue → Envelope → List Text → Queue
  added q e ds = record { entries = q.entries ++ remote_entries e ds }

  enqueue-remotes :
      (e : Envelope) (env : Env)
      → enqueue crates db e (remotes e) env
        ≡ (done tt, record env { queue = added env.queue e (crates.multimap.keys (remotes e)) })
  unfolding enqueue
  enqueue-remotes e env = elim (Bool-cases (crates.multimap.is_empty (remotes e))) [
    | inl y ↦
        let nil = (laws.is_empty_iff (remotes e)).0 y in
        rw (y, enqueue)
          (ap (λ es. (done tt, record env { queue = record { entries = es } }))
            (sym (append-nil env.queue.entries)
              ∙ ap (λ ds. env.queue.entries ++ remote_entries e ds) (sym nil)))
    | inr n ↦
        rw (n, enqueue)
          (ap (λ o. keep_queue crates db o env)
            (add-eq crates.multimap laws env.queue e (remotes e)
              ∙ ap (λ es. some (record { entries = env.queue.entries ++ es }))
                  (remote_entries-eq e (crates.multimap.keys (remotes e)))))
  ]

  -- With a multimap that keeps its laws, delivering a mail adds to the end of the queue at most one
  -- entry. The entry holds the mail and, for each of the distinct domains of the remote recipients,
  -- the group of those recipients in their order. It is added whether the local delivery succeeds
  -- or not.
  pub deliver_mail-queue :
      (e : Envelope) (env : Env)
      → (ds : List Text) × Distinct ds
        × ((d : Text) → has d ds ≡ not (is_nil (remote_to e.recipients d)))
        × ((deliver_mail crates db e env).1.queue ≡ added env.queue e ds)
  unfolding deliver_mail
  deliver_mail-queue e env = (
    crates.multimap.keys (remotes e),
    laws.keys-Distinct (remotes e),
    remotes-has e,
    ap (λ r. (continue r.0 (λ _. locals_sent) r.1).1.queue) (enqueue-remotes e env)
        ∙ ((deliver_locals-Keeps crates db {I = λ env'. env'.queue ≡ q} (λ _ _ i. i) e
              (sort_recipients crates db e.recipients [] crates.multimap.new).0).at
            (record env { queue = q }) refl).0,
  )
    where
      q : Queue
      q = added env.queue e (crates.multimap.keys (remotes e))

      locals_sent : Action MailboxDeliveryError Env (Unit {0})
      locals_sent =
          deliver_locals crates db e
            (sort_recipients crates db e.recipients [] crates.multimap.new).0
