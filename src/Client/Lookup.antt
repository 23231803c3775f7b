-- ===== src/Client/Lookup.antt =====
-- The hosts that `SmtpClient::lookup` finds, and `discover_connection` as a whole.
use whalemail.Prelude.{
  ℕ, ◌+◌, true, ◌≡◌, ◌≢◌, refl, sym, ap, subst, ◌∙◌, some, List, [], ◌∷◌, ◌++◌, arith,
  if◌then◌else◌, ◌==◌, ==_iff, inl, inr, Bool-cases, Option-cases, All, append_assoc, append-nil,
}
use mathlib.Core.List.{Perm}
use mathlib.Core.List.Perm as Perms
use whalemail.Prelude.Outcome.{ok}
use whalemail.Prelude.Action.{done}
use whalemail.Text.{Text}
use whalemail.MultiMap.{values_of, is_some}
use whalemail.Client.Hosts.{HostMap, IsHostMap, has, insert_hosts, shuffle_keys, group_hosts}
use whalemail.Client.Popping.{IsFull}
use whalemail.Client.Order.{with_preference}

-- what the random generator does to a list
abbrev pub IsShuffle : (ℕ → List Text → List Text) → Type 0
IsShuffle shuffle = (n : ℕ) (vs : List Text) → Perm (shuffle n vs) vs

append-ne-nil : (vs : List Text) (v : Text) → vs ++ v ∷ [] ≢ []
append-ne-nil [] v e = cc
append-ne-nil (u ∷ vs) v e = cc

module _ {M : Type 0} (hm : HostMap M) (laws : IsHostMap hm) where
  insert-values :
      (m : M) (p : ℕ) (host : Text) (k : ℕ)
      → values_of (hm.get_vec (hm.insert m p host) k)
        ≡ (if p == k then values_of (hm.get_vec m k) ++ host ∷ [] else values_of (hm.get_vec m k))
  insert-values m p host k = elim (Bool-cases (p == k)) [
    | inl y ↦
        subst
          (λ j. values_of (hm.get_vec (hm.insert m p host) j) ≡ (
            if p == j then values_of (hm.get_vec m j) ++ host ∷ [] else values_of (hm.get_vec m j)))
          ((==_iff p k).0 y) (ground (arith, laws.get_vec-insert m p p host))
    | inr n ↦ ground (arith, laws.get_vec-insert m p k host)
  ]

  insert-IsFull :
      (m : M) (p : ℕ) (host : Text) → IsFull hm laws m → IsFull hm laws (hm.insert m p host)
  insert-IsFull m p host full = record {
    some_host = λ k h. ground (
      arith,
      laws.get_vec-insert m p k host,
      append-ne-nil (values_of (hm.get_vec m p)) host,
      full.some_host k,
    );
  }

  insert_hosts-values :
      (r : List (ℕ × Text)) (m : M) (k : ℕ)
      → values_of (hm.get_vec (insert_hosts hm r m) k)
        ≡ values_of (hm.get_vec m k) ++ with_preference r k
  unfolding insert_hosts with_preference
  insert_hosts-values [] m k = sym (append-nil _)
  insert_hosts-values ((p, host) ∷ r) m k = ground (
    arith,
    insert_hosts-values r (hm.insert m p host) k,
    insert-values m p host k,
    append_assoc (values_of (hm.get_vec m k)) (host ∷ []) (with_preference r k),
  )

  insert_hosts-IsFull :
      (r : List (ℕ × Text)) (m : M) → IsFull hm laws m → IsFull hm laws (insert_hosts hm r m)
  unfolding insert_hosts
  insert_hosts-IsFull [] m full = full
  insert_hosts-IsFull ((p, host) ∷ r) m full =
      insert_hosts-IsFull r (hm.insert m p host) (insert-IsFull m p host full)

  module _ (shuffle : ℕ → List Text → List Text) (shuffled : IsShuffle shuffle) where
    -- the same hosts, preference by preference
    abbrev SameHosts : M → M → Type 0
    SameHosts m m' = (k : ℕ) → Perm (values_of (hm.get_vec m' k)) (values_of (hm.get_vec m k))

    shuffle-ne-nil : (n : ℕ) (vs : List Text) → vs ≢ [] → shuffle n vs ≢ []
    shuffle-ne-nil n vs ne e = ne (sym (Perms.nil-eq (subst (λ l. Perm l vs) e (shuffled n vs))))

    shuffle_keys-SameHosts :
        (n : ℕ) (ks : List ℕ) (m : M)
        → IsFull hm laws m
        → All (λ k. is_some (hm.get_vec m k) ≡ true) ks
        → (m' : M) × (shuffle_keys hm shuffle n ks m ≡ some m') × IsFull hm laws m' × SameHosts m m'
    unfolding shuffle_keys
    shuffle_keys-SameHosts n [] m full a = (m, refl, full, λ k. Perms.refl _)
    shuffle_keys-SameHosts n (k ∷ ks) m full a = elim (Option-cases (hm.get_vec m k)) [
      | inl z ↦ ground arith
      | inr (vs, z) ↦
          let m' = hm.set_vec m k (shuffle n vs) in
          let (m'', e, full'', same) =
            shuffle_keys-SameHosts (n + 1) ks m' (set_full vs z) (set_keys vs z ks a.1) in
          (m'', rw (z, shuffle_keys) e, full'', λ j. Perms.trans (same j) (set_same vs z j))
    ]
      where
        set_get :
            (vs : List Text)
            → hm.get_vec m k ≡ some vs
            → (j : ℕ)
            → hm.get_vec (hm.set_vec m k (shuffle n vs)) j
              ≡ (if k == j then some (shuffle n vs) else hm.get_vec m j)
        set_get vs z j = laws.get_vec-set_vec m k j (shuffle n vs) (ap is_some z)

        set_full :
            (vs : List Text)
            → hm.get_vec m k ≡ some vs
            → IsFull hm laws (hm.set_vec m k (shuffle n vs))
        set_full vs z = record {
          some_host = λ j h. ground (
            arith,
            set_get vs z j,
            full.some_host j,
            shuffle-ne-nil n vs (λ v. full.some_host k (z ∙ ap some v)),
          );
        }

        set_keys :
            (vs : List Text)
            → hm.get_vec m k ≡ some vs
            → (js : List ℕ) → All (λ j. is_some (hm.get_vec m j) ≡ true) js
            → All (λ j. is_some (hm.get_vec (hm.set_vec m k (shuffle n vs)) j) ≡ true) js
        set_keys vs z [] h = tt
        set_keys vs z (j ∷ js) h = (ground (arith, set_get vs z j, h.0), set_keys vs z js h.1)

        set_same :
            (vs : List Text)
            → hm.get_vec m k ≡ some vs
            → SameHosts m (hm.set_vec m k (shuffle n vs))
        set_same vs z j = elim (Bool-cases (k == j)) [
          | inl y ↦
              subst (λ l. Perm l (values_of (hm.get_vec m j)))
                (sym (
                  ap values_of (
                    set_get vs z j
                    ∙ ap (λ b. if b then some (shuffle n vs) else hm.get_vec m j) y)))
                (subst (λ l. Perm (shuffle n vs) l)
                  (sym (ap values_of (subst (λ i. hm.get_vec m i ≡ some vs) ((==_iff k j).0 y) z)))
                  (shuffled n vs))
          | inr o ↦
              subst (λ l. Perm l (values_of (hm.get_vec m j)))
                (sym (
                  ap values_of (
                    set_get vs z j
                    ∙ ap (λ b. if b then some (shuffle n vs) else hm.get_vec m j) o)))
                (Perms.refl _)
        ]

    IsFull-new : IsFull hm laws hm.new
    IsFull-new = record { some_host = λ k h. cc (laws.get_vec-new k, h) }

    All-keys :
        (m : M) (ks : List ℕ)
        → ((k : ℕ) → has k ks ≡ true → is_some (hm.get_vec m k) ≡ true)
        → All (λ k. is_some (hm.get_vec m k) ≡ true) ks
    All-keys m [] h = tt
    All-keys m (k ∷ ks) h = (h k (ground arith), All-keys m ks (λ j g. h j (ground arith)))

    -- The answer of the name server is grouped by preference into a map that holds the same hosts
    -- of each preference, and none without a host.
    pub group_hosts-SameHosts :
        (r : List (ℕ × Text))
        → (m : M) × (group_hosts hm shuffle (ok r) ≡ done m)
          × IsFull hm laws m
          × ((k : ℕ) → Perm (values_of (hm.get_vec m k)) (with_preference r k))
    group_hosts-SameHosts r =
        let (m', e, full, same) =
          shuffle_keys-SameHosts 0 (hm.keys m) m (insert_hosts-IsFull r hm.new IsFull-new)
            (All-keys m (hm.keys m) (λ k h. sym (laws.has-keys m k) ∙ h)) in
        (
          m',
          rw e refl,
          full,
          λ k. subst (λ l. Perm (values_of (hm.get_vec m' k)) l) (inserted k) (same k),
        )
      where
        m : M
        m = insert_hosts hm r hm.new

        inserted : (k : ℕ) → values_of (hm.get_vec m k) ≡ with_preference r k
        inserted k =
            insert_hosts-values r hm.new k
            ∙ ap (λ o. values_of o ++ with_preference r k) (laws.get_vec-new k)
