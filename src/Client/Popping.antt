-- ===== src/Client/Popping.antt =====
-- `SmtpClient::pop_host` takes a host of the least preference.
use whalemail.Prelude.{
  ℕ, ◌≤◌, true, ◌≡◌, ◌≢◌, ◌⊎◌, refl, sym, ap, subst, ◌∙◌, Option, none, some, List, [], ◌∷◌, ◌++◌,
  inl, inr, arith, if◌then◌else◌, ltb, ◌==◌, Bool-cases, Option-cases, pop_last, pop_last-nil,
  pop_last-eq,
}
use whalemail.Text.{Text}
use whalemail.MultiMap.{is_some}
use whalemail.Client.Hosts.{
  HostMap, IsHostMap, has, lowest, is_nil, after_pop, pop_from, pop_hosts, pop_lowest, pop_host,
}

-- the least of a number and the keys
abbrev Least : ℕ → List ℕ → ℕ → Type 0
Least p ks q = (q ≤ p) × ((k : ℕ) → has k ks ≡ true → q ≤ k) × ((q ≡ p) ⊎ (has q ks ≡ true))

lowest-Least : (p : ℕ) (ks : List ℕ) → (q : ℕ) × (lowest (some p) ks ≡ some q) × Least p ks q
unfolding lowest
lowest-Least p [] = (p, refl, (omega arith, λ k h. cc, inl refl))
lowest-Least p (j ∷ ks) =
    let (q, e, (le, least, mem)) = lowest-Least (if ltb j p then j else p) ks in
    (q, e, (ground arith, λ k h. ground (arith, least k), member mem))
  where
    member :
        {q : ℕ}
        → (q ≡ (if ltb j p then j else p)) ⊎ (has q ks ≡ true)
        → (q ≡ p) ⊎ (has q (j ∷ ks) ≡ true)
    member (inr h) = inr (ground arith)
    member (inl e) = elim (Bool-cases (ltb j p)) [
      | inl y ↦ inr (ground arith)
      | inr n ↦ inl (ground arith)
    ]

-- the hosts that are left of a preference, if any are
abbrev pub non_empty : List Text → Option (List Text)
non_empty vs = if is_nil vs then none else some vs

module _ {M : Type 0} (hm : HostMap M) (laws : IsHostMap hm) where
  -- no preference is left without a host
  pub record IsFull (m : M) : Type 0 where
    pub some_host : (k : ℕ) → hm.get_vec m k ≢ some []

  -- Nothing is popped of a map with no keys. Else the popped host is the last one of the least
  -- preference, and it alone is taken away.
  abbrev pub Popped : M → Option (Option Text × M) → Type 0
  Popped m none = ⊥
  Popped m (some (none, m')) = (m' ≡ m) × (hm.keys m ≡ [])
  Popped m (some (some host, m')) =
      (prio : ℕ) × (rest : List Text) × (hm.get_vec m prio ≡ some (rest ++ host ∷ []))
      × ((k : ℕ) → has k (hm.keys m) ≡ true → prio ≤ k)
      × ((k : ℕ) → hm.get_vec m' k ≡ (if prio == k then non_empty rest else hm.get_vec m k))

  module _ (m : M) (prio : ℕ) (host : Text) (rest : List Text)
      (hosts : hm.get_vec m prio ≡ some (rest ++ host ∷ [])) where
    get_vec-set :
        (k : ℕ)
        → hm.get_vec (hm.set_vec m prio rest) k ≡ (if prio == k then some rest else hm.get_vec m k)
    get_vec-set k = laws.get_vec-set_vec m prio k rest (ap is_some hosts)

    after_pop-Popped :
        ((k : ℕ) → has k (hm.keys m) ≡ true → prio ≤ k)
        → (o : Option (List Text)) → hm.get_vec (hm.set_vec m prio rest) prio ≡ o
        → Popped m (after_pop hm prio host (hm.set_vec m prio rest) o)
    after_pop-Popped least none e = ground (arith, get_vec-set prio)
    after_pop-Popped least (some []) e = (
      prio,
      rest,
      hosts,
      least,
      λ k. ground (
        arith,
        get_vec-set prio,
        get_vec-set k,
        laws.get_vec-remove (hm.set_vec m prio rest) prio k,
      ),
    )
    after_pop-Popped least (some (v ∷ vs)) e =
        (prio, rest, hosts, least, λ k. ground (arith, get_vec-set prio, get_vec-set k))

  pop_hosts-Popped :
      (m : M) (prio : ℕ) (vs : List Text)
      → hm.get_vec m prio ≡ some vs
      → vs ≢ []
      → ((k : ℕ) → has k (hm.keys m) ≡ true → prio ≤ k)
      → Popped m (pop_hosts hm m prio (some vs))
  pop_hosts-Popped m prio vs e ne least = elim (Option-cases (pop_last vs)) [
    | inl n ↦ absurd (ne (pop_last-nil vs n))
    | inr ((host, rest), p) ↦
        rw (p, pop_from)
          (after_pop-Popped m prio host rest (e ∙ ap some (pop_last-eq vs p)) least
            (hm.get_vec (hm.set_vec m prio rest) prio) refl)
  ]

  pop_lowest-Popped :
      (m : M) (ks : List ℕ)
      → IsFull m
      → hm.keys m ≡ ks
      → Popped m (pop_lowest hm m (lowest none ks))
  unfolding lowest
  pop_lowest-Popped m [] full e = (refl, e)
  pop_lowest-Popped m (j ∷ ks) full e =
      let (q, p, (le, least, mem)) = lowest-Least j ks in
      rw p (at_key q (has_key mem) (λ k h. smallest le least k (subst (λ l. has k l ≡ true) e h)))
    where
      has_key : {q : ℕ} → (q ≡ j) ⊎ (has q ks ≡ true) → has q (hm.keys m) ≡ true
      has_key (inl h) = rw e (ground arith)
      has_key (inr h) = rw e (ground arith)

      smallest :
          {q : ℕ}
          → q ≤ j
          → ((k : ℕ) → has k ks ≡ true → q ≤ k)
          → (k : ℕ) → has k (j ∷ ks) ≡ true
          → q ≤ k
      smallest le least k h = ground (arith, least k)

      at_key :
          (q : ℕ)
          → has q (hm.keys m) ≡ true
          → ((k : ℕ) → has k (hm.keys m) ≡ true → q ≤ k)
          → Popped m (pop_hosts hm m q (hm.get_vec m q))
      at_key q h least = elim (Option-cases (hm.get_vec m q)) [
        | inl n ↦ absurd (cc (laws.has-keys m q, h, n))
        | inr (vs, v) ↦
            rw v (pop_hosts-Popped m q vs v (λ z. full.some_host q (v ∙ ap some z)) least)
      ]

  -- In a multimap that keeps its laws and leaves no preference without a host, `pop_host` does not
  -- panic. It returns no host if there are no keys, and else the last host of the least preference,
  -- which alone is taken away, with the preference if it was the only one.
  pub pop_host-Popped : (m : M) → IsFull m → Popped m (pop_host hm m)
  unfolding pop_host
  pop_host-Popped m full = pop_lowest-Popped m (hm.keys m) full refl

  non_empty-ne-nil : (vs : List Text) → non_empty vs ≢ some []
  non_empty-ne-nil [] e = cc
  non_empty-ne-nil (v ∷ vs) e = cc

  -- The map behind is full, too.
  pub Popped-IsFull : (m m' : M) (o : Option Text) → IsFull m → Popped m (some (o, m')) → IsFull m'
  Popped-IsFull m m' none full (e, _) = subst IsFull (sym e) full
  Popped-IsFull m m' (some host) full (prio, rest, hosts, least, after) = record {
    some_host = λ k h. ground (arith, after k, full.some_host k, non_empty-ne-nil rest);
  }
