-- ===== src/Client/Found.antt =====
-- `SmtpClient::discover_connection` as a whole.
use whalemail.Prelude.{ℕ, suc, ◌≡◌, sym, ap, subst, ◌∙◌, List, map, reverse, arith, ◌≤◌, length}
use mathlib.Core.List.{Perm, reverse_perm}
use mathlib.Core.List.Perm as Perms
use whalemail.Prelude.Outcome.{ok}
use whalemail.Text.{Text}
use whalemail.Config.{Config}
use whalemail.MultiMap.{values_of}
use whalemail.Client.Network.{Network, build_resolver, mx_lookup, now, log}
use whalemail.Client.Hosts.{IsHostMap, lookup}
use whalemail.Client.Popping.{IsFull}
use whalemail.Client.Discovery.{ClientCrates, total, within_fuel, probe_all, discover_connection}
use whalemail.Client.Order.{with_preference, Ordered, try_hosts, tries}
use whalemail.Client.Lookup.{IsShuffle, group_hosts-SameHosts}

module _ {M Cert Key Store Acceptor : Type 0} (crates : ClientCrates M Cert Key Store Acceptor)
    (laws : IsHostMap crates.hosts) (config : Config) where
  -- For a multimap that keeps its laws and leaves no preference without a host, there is an order
  -- of all of its hosts, no more than its keys' lists hold, in which the preferences do not fall,
  -- such that the loop ends and tries the hosts in that order up to the first that it can connect
  -- to.
  pub probe_all-try_hosts :
      (m : M)
      → IsFull crates.hosts laws m
      → (l : List (ℕ × Text)) × Ordered l
        × (length l ≤ total crates.hosts m (crates.hosts.keys m))
        × ((k : ℕ) → with_preference l k ≡ reverse (values_of (crates.hosts.get_vec m k)))
        × ((w : Network)
            → probe_all crates config m w ≡ try_hosts crates config (map (λ x. x.1) l) w)
  unfolding probe_all
  probe_all-try_hosts m full =
      let ks = crates.hosts.keys m in
      let (l, known, short, (ordered, contents, runs)) =
        tries crates config laws (suc (total crates.hosts m ks)) m ks full
          (λ k h. laws.has-keys m k ∙ h) (omega arith) in
      (l, ordered, short, contents, λ w. ap (within_fuel crates w) (runs w))

  -- If the multimap keeps its laws, the random generator shuffles and the name server answers, the
  -- hosts of the answer are tried in an order in which the preferences do not fall, up to the first
  -- that can be connected to.
  pub discover_connection-try_hosts :
      IsShuffle crates.shuffle
      → (remote_addr : Text) (w : Network) (r : List (ℕ × Text)) → w.resolver (now w) ≡ ok tt
      → w.mx (now (log build_resolver w)) ≡ ok r
      → (l : List (ℕ × Text)) × Ordered l
        × ((k : ℕ) → Perm (with_preference l k) (with_preference r k))
        × (discover_connection crates config remote_addr w
            ≡ try_hosts crates config
                (map (λ x. x.1) l)
                (log (mx_lookup remote_addr) (log build_resolver w)))
  unfolding discover_connection lookup
  discover_connection-try_hosts shuffled remote_addr w r resolved answered =
      let (m, e, full, same) = group_hosts-SameHosts crates.hosts laws crates.shuffle shuffled r in
      let (l, ordered, short, contents, runs) = probe_all-try_hosts m full in
      (
        l,
        ordered,
        λ k.
            Perms.trans
              (subst (λ hs. Perm hs (values_of (crates.hosts.get_vec m k))) (sym (contents k))
                (reverse_perm _))
              (same k),
        rw (resolved, answered, e) (runs _),
      )
