-- ===== src/Client/Hosts.antt =====
-- The hosts of a domain by preference: `SmtpClient::lookup` and `SmtpClient::pop_host`. Their multimap
-- has numbers for keys and is changed in place, so its interface is one of its own.
use whalemail.Prelude.{
  ℕ, ◌+◌, Bool, true, false, ◌||◌, ◌≡◌, Option, none, some, List, [], ◌∷◌, ◌++◌, if◌then◌else◌, ltb,
  ◌==◌, pop_last,
}
use whalemail.Prelude.Outcome.{Result, ok, err}
use whalemail.Prelude.Action.{Outcome, done, failed, panicked, Action}
use whalemail.Text.{Text}
use whalemail.MultiMap.{values_of, is_some}
use whalemail.Client.Errors.{ResolveError}
use whalemail.Client.Network.{Network, mx_lookup, now, log}

-- `set_vec` is what is written through `get_vec_mut`
pub record HostMap (M : Type 0) : Type 0 where
  pub new : M
  pub insert : M → ℕ → Text → M
  pub keys : M → List ℕ
  pub get_vec : M → ℕ → Option (List Text)
  pub set_vec : M → ℕ → List Text → M
  pub remove : M → ℕ → M

abbrev pub has : ℕ → List ℕ → Bool
has k [] = false
has k (j ∷ js) = k == j || has k js

-- what the crate documents
pub record IsHostMap {M : Type 0} (hm : HostMap M) : Type 0 where
  pub get_vec-new : (k : ℕ) → hm.get_vec hm.new k ≡ none
  pub get_vec-insert :
      (m : M) (k j : ℕ) (v : Text)
      → hm.get_vec (hm.insert m k v) j
        ≡ (if k == j then some (values_of (hm.get_vec m k) ++ v ∷ []) else hm.get_vec m j)
  pub get_vec-set_vec :
      (m : M) (k j : ℕ) (vs : List Text)
      → is_some (hm.get_vec m k) ≡ true
      → hm.get_vec (hm.set_vec m k vs) j ≡ (if k == j then some vs else hm.get_vec m j)
  pub get_vec-remove :
      (m : M) (k j : ℕ) → hm.get_vec (hm.remove m k) j ≡ (if k == j then none else hm.get_vec m j)
  pub has-keys : (m : M) (k : ℕ) → has k (hm.keys m) ≡ is_some (hm.get_vec m k)

-- the loop over the keys that finds the least
unfoldable pub lowest : Option ℕ → List ℕ → Option ℕ
lowest p [] = p
lowest none (k ∷ ks) = lowest (some k) ks
lowest (some p) (k ∷ ks) = lowest (some (if ltb k p then k else p)) ks

abbrev pub is_nil : List Text → Bool
is_nil [] = true
is_nil (x ∷ xs) = false

module _ {M : Type 0} (hm : HostMap M) where
  -- the host and the map behind it, once the last host of `prio` is taken
  abbrev pub after_pop : ℕ → Text → M → Option (List Text) → Option (Option Text × M)
  after_pop prio host m none = none
  after_pop prio host m (some vs) =
      if is_nil vs then some (some host, hm.remove m prio) else some (some host, m)

  abbrev pub pop_from : M → ℕ → Option (Text × List Text) → Option (Option Text × M)
  pop_from m prio none = none
  pop_from m prio (some (host, rest)) =
      let m' = hm.set_vec m prio rest in after_pop prio host m' (hm.get_vec m' prio)

  abbrev pub pop_hosts : M → ℕ → Option (List Text) → Option (Option Text × M)
  pop_hosts m prio none = none
  pop_hosts m prio (some hosts) = pop_from m prio (pop_last hosts)

  abbrev pub pop_lowest : M → Option ℕ → Option (Option Text × M)
  pop_lowest m none = some (none, m)
  pop_lowest m (some prio) = pop_hosts m prio (hm.get_vec m prio)

  -- `pop_host`; the outer `none` is the panic of an `unwrap`
  unfoldable pub pop_host : M → Option (Option Text × M)
  pop_host m = pop_lowest m (lowest none (hm.keys m))

  -- the closure over the response
  unfoldable pub insert_hosts : List (ℕ × Text) → M → M
  insert_hosts [] m = m
  insert_hosts ((preference, exchange) ∷ r) m = insert_hosts r (hm.insert m preference exchange)

  -- `shuffle` stands for the random generator at its n-th use
  module _ (shuffle : ℕ → List Text → List Text) where
    abbrev pub shuffle_key : ℕ → ℕ → M → Option (List Text) → Option M
    shuffle_key n k m none = none
    shuffle_key n k m (some vs) = some (hm.set_vec m k (shuffle n vs))

    -- the loop over the keys that shuffles the hosts of each
    unfoldable pub shuffle_keys : ℕ → List ℕ → M → Option M
    shuffle_keys n [] m = some m
    shuffle_keys n (k ∷ ks) m = elim (shuffle_key n k m (hm.get_vec m k)) [
      | none ↦ none
      | some m' ↦ shuffle_keys (n + 1) ks m'
    ]

    abbrev pub or_panic : Option M → Outcome ResolveError M
    or_panic none = panicked
    or_panic (some m) = done m

    abbrev pub group_hosts : Result ResolveError (List (ℕ × Text)) → Outcome ResolveError M
    group_hosts (err e) = failed e
    group_hosts (ok r) = let m = insert_hosts r hm.new in or_panic (shuffle_keys 0 (hm.keys m) m)

    unfoldable pub lookup : Text → Action ResolveError Network M
    lookup remote_addr w = (group_hosts (w.mx (now w)), log (mx_lookup remote_addr) w)
