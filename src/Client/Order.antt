-- ===== src/Client/Order.antt =====
-- The order in which `SmtpClient::discover_connection` tries the hosts, and that its loop ends.
use whalemail.Prelude.{
  ℕ, zero, suc, ◌+◌, ◌≤◌, ◌<◌, true, ◌≡◌, refl, sym, ap, subst, ◌∙◌, Option, none, some, List, [],
  ◌∷◌, ◌++◌, map, reverse, arith, if◌then◌else◌, ◌==◌, ==_iff, inl, inr, Bool-cases, Option-cases,
  All, length, length-append,
}
use mathlib.Core.List.{reverse-append}
use whalemail.Prelude.Action.{Outcome, done, failed, panicked, Action}
use whalemail.Text.{Text}
use whalemail.Config.{Config}
use whalemail.MultiMap.{values_of, is_some}
use whalemail.Client.Errors.{ClientError}
use whalemail.Client.Network.{Network}
use whalemail.Client.Hosts.{HostMap, IsHostMap, has, pop_host}
use whalemail.Client.Popping.{IsFull, non_empty, Popped, pop_host-Popped, Popped-IsFull}
use whalemail.Client.Discovery.{ClientCrates, Opened, connect, or_next, Probed, probe, total}

-- the hosts of one preference in a list of hosts with theirs
unfoldable pub with_preference : List (ℕ × Text) → ℕ → List Text
with_preference [] k = []
with_preference ((p, host) ∷ l) k =
    let rest = with_preference l k in if p == k then host ∷ rest else rest

-- no host comes before one of a lesser preference
abbrev pub Ordered : List (ℕ × Text) → Type 0
Ordered [] = Unit
Ordered ((p, host) ∷ l) = All (λ x. p ≤ x.0) l × Ordered l

pub All-map :
    {A : Type 0} {P Q : A → Type 0} → ((x : A) → P x → Q x) → (xs : List A) → All P xs → All Q xs
All-map f [] h = tt
All-map f (x ∷ xs) h = (f x h.0, All-map f xs h.1)

values_of-non_empty : (vs : List Text) → values_of (non_empty vs) ≡ vs
values_of-non_empty [] = refl
values_of-non_empty (v ∷ vs) = refl

module _ {M : Type 0} (hm : HostMap M) (m m' : M) (prio : ℕ) (host : Text) (rest : List Text)
    (hosts : hm.get_vec m prio ≡ some (rest ++ host ∷ []))
    (after : (k : ℕ)
      → hm.get_vec m' k ≡ (if prio == k then non_empty rest else hm.get_vec m k)) where
  values_after :
      (k : ℕ)
      → values_of (hm.get_vec m k) ≡ (
          if prio == k
          then values_of (hm.get_vec m' k) ++ host ∷ []
          else values_of (hm.get_vec m' k))
  values_after k = elim (Bool-cases (prio == k)) [
    | inl y ↦
        subst
          (λ j. values_of (hm.get_vec m j) ≡ (
            if prio == j
            then values_of (hm.get_vec m' j) ++ host ∷ []
            else values_of (hm.get_vec m' j)))
          ((==_iff prio k).0 y) (ground (arith, hosts, after prio, values_of-non_empty rest))
    | inr n ↦ ground (arith, after k)
  ]

  size_after :
      (k : ℕ)
      → length (values_of (hm.get_vec m k))
        ≡ length (values_of (hm.get_vec m' k)) + (if prio == k then 1 else 0)
  size_after k =
      ground (arith, values_after k, length-append (values_of (hm.get_vec m' k)) (host ∷ []))

  total-le : (ks : List ℕ) → total hm m' ks ≤ total hm m ks
  unfolding total
  total-le [] = omega arith
  total-le (k ∷ ks) = ground (arith, size_after k, total-le ks)

  total-lt : (ks : List ℕ) → has prio ks ≡ true → total hm m' ks < total hm m ks
  unfolding total
  total-lt [] h = cc
  total-lt (k ∷ ks) h = ground (arith, size_after k, total-le ks, total-lt ks)

  -- a preference that is left was there
  still_there : (k : ℕ) → is_some (hm.get_vec m' k) ≡ true → is_some (hm.get_vec m k) ≡ true
  still_there k h = elim (Bool-cases (prio == k)) [
    | inl y ↦ subst (λ j. is_some (hm.get_vec m j) ≡ true) ((==_iff prio k).0 y) (ap is_some hosts)
    | inr n ↦ ground (arith, after k)
  ]

  reverse_after :
      (k : ℕ)
      → reverse (values_of (hm.get_vec m k)) ≡ (
          if prio == k
          then host ∷ reverse (values_of (hm.get_vec m' k))
          else reverse (values_of (hm.get_vec m' k)))
  reverse_after k =
      ground (arith, values_after k, reverse-append (values_of (hm.get_vec m' k)) (host ∷ []))

-- the hosts of a list one after the other, up to the first that can be connected to
module _ {M Cert Key Store Acceptor : Type 0} (crates : ClientCrates M Cert Key Store Acceptor)
    (config : Config) where
  abbrev pub try_next :
      Outcome ClientError (Option Opened) × Network
      → Action ClientError Network Opened
      → Outcome ClientError Opened × Network
  try_next (done (some opened), w) rest = (done opened, w)
  try_next (done none, w) rest = rest w
  try_next (failed e, w) rest = (failed e, w)
  try_next (panicked, w) rest = (panicked, w)

  unfoldable pub try_hosts : List Text → Action ClientError Network Opened
  try_hosts [] w = (failed ClientError.no_smtp_host_error, w)
  try_hosts (host ∷ hosts) w = try_next (connect crates config host w) (try_hosts hosts)

  or_next-try_next :
      (r : Outcome ClientError (Option Opened) × Network) (rest : Network → Probed crates)
      (next : Action ClientError Network Opened)
      → ((w : Network) → rest w ≡ some (next w))
      → or_next crates r rest ≡ some (try_next r next)
  or_next-try_next (done (some opened), w) rest next h = refl
  or_next-try_next (done none, w) rest next h = h w
  or_next-try_next (failed e, w) rest next h = refl
  or_next-try_next (panicked, w) rest next h = refl

  module _ (laws : IsHostMap crates.hosts) where
    -- the hosts of a map in the order in which they are tried
    abbrev pub Tried : ℕ → M → List (ℕ × Text) → Type 0
    Tried fuel m l =
        Ordered l
        × ((k : ℕ) → with_preference l k ≡ reverse (values_of (crates.hosts.get_vec m k)))
        × ((w : Network) → probe crates fuel config m w ≡ some (try_hosts (map (λ x. x.1) l) w))

    abbrev pub Known : M → ℕ × Text → Type 0
    Known m x = is_some (crates.hosts.get_vec m x.0) ≡ true

    pub tries :
        (fuel : ℕ) (m : M) (ks : List ℕ)
        → IsFull crates.hosts laws m
        → ((k : ℕ) → is_some (crates.hosts.get_vec m k) ≡ true → has k ks ≡ true)
        → total crates.hosts m ks < fuel
        → (l : List (ℕ × Text)) × All (Known m) l
          × (length l ≤ total crates.hosts m ks)
          × Tried fuel m l
    unfolding total probe try_hosts with_preference
    tries zero m ks full cover lt = absurd (omega arith)
    tries (suc fuel) m ks full cover lt =
        popped (pop_host crates.hosts m) refl (pop_host-Popped crates.hosts laws m full)
          λ m' f c t. tries fuel m' ks f c t
      where
        no_hosts : (k : ℕ) → crates.hosts.keys m ≡ [] → values_of (crates.hosts.get_vec m k) ≡ []
        no_hosts k n = elim (Option-cases (crates.hosts.get_vec m k)) [
          | inl z ↦ ap values_of z
          | inr (vs, z) ↦ cc (laws.has-keys m k, ap (has k) n, ap is_some z)
        ]

        falls :
            (m' : M) (prio : ℕ) (host : Text) (rest : List Text)
            (hosts : crates.hosts.get_vec m prio ≡ some (rest ++ host ∷ []))
            (after : (k : ℕ)
              → crates.hosts.get_vec m' k
                ≡ (if prio == k then non_empty rest else crates.hosts.get_vec m k))
            → total crates.hosts m' ks < total crates.hosts m ks
        falls m' prio host rest hosts after =
            total-lt crates.hosts m m' prio host rest hosts after ks (cover prio (ap is_some hosts))

        first :
            (m' : M) (prio : ℕ) (host : Text) (rest : List Text)
            (least : (k : ℕ) → has k (crates.hosts.keys m) ≡ true → prio ≤ k)
            (hosts : crates.hosts.get_vec m prio ≡ some (rest ++ host ∷ []))
            (after : (k : ℕ)
              → crates.hosts.get_vec m' k
                ≡ (if prio == k then non_empty rest else crates.hosts.get_vec m k))
            → pop_host crates.hosts m ≡ some (some host, m')
            → (l : List (ℕ × Text)) × All (Known m') l
              × (length l ≤ total crates.hosts m' ks)
              × Tried fuel m' l
            → (l : List (ℕ × Text)) × All (Known m) l
              × (length l ≤ total crates.hosts m ks)
              × Tried (suc fuel) m l
        first m' prio host rest least hosts after e (l, known, short, (ordered, contents, runs)) =
            let there =
              All-map (λ x h. still_there crates.hosts m m' prio host rest hosts after x.0 h) l
                known in
            (
              (prio, host) ∷ l,
              (ap is_some hosts, there),
              ground (arith, short, falls m' prio host rest hosts after),
              (
                (All-map (λ x h. least x.0 (laws.has-keys m x.0 ∙ h)) l there, ordered),
                λ k. ground (
                  arith,
                  contents k,
                  reverse_after crates.hosts m m' prio host rest hosts after k,
                ),
                λ w. rw e (or_next-try_next (connect crates config host w) _ _ runs),
              ),
            )

        popped :
            (r : Option (Option Text × M))
            → pop_host crates.hosts m ≡ r
            → Popped crates.hosts laws m r
            → ((m' : M)
                → IsFull crates.hosts laws m'
                → ((k : ℕ) → is_some (crates.hosts.get_vec m' k) ≡ true → has k ks ≡ true)
                → total crates.hosts m' ks < fuel
                → (l : List (ℕ × Text)) × All (Known m') l
                  × (length l ≤ total crates.hosts m' ks)
                  × Tried fuel m' l)
            → (l : List (ℕ × Text)) × All (Known m) l
              × (length l ≤ total crates.hosts m ks)
              × Tried (suc fuel) m l
        popped none e p ih = absurd p
        popped (some (none, m')) e (_, n) ih =
            ([], tt, omega arith, (tt, λ k. ap reverse (sym (no_hosts k n)), λ w. rw e refl))
        popped (some (some host, m')) e (prio, rest, hosts, least, after) ih =
            first m' prio host rest least hosts after e (
              ih m'
                (Popped-IsFull crates.hosts laws m m' (some host) full
                  (prio, rest, hosts, least, after))
                (λ k h. cover k (still_there crates.hosts m m' prio host rest hosts after k h))
                (ground (arith, falls m' prio host rest hosts after)))
