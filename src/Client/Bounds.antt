-- ===== src/Client/Bounds.antt =====
-- How many calls a delivery makes on the network.
use whalemail.Prelude.{
  ℕ, suc, ◌+◌, ◌*◌, ◌≤◌, true, false, Bool, ◌≡◌, refl, ap, Option, none, some, List, [], ◌∷◌, map,
  arith, length,
}
use whalemail.Prelude.Outcome.{Result, ok, err}
use whalemail.Prelude.Action.{Outcome, done, failed, panicked, Action, pure}
use whalemail.Text.{Text}
use whalemail.Config.{Config}
use whalemail.Envelope.{MailAddress, Envelope}
use whalemail.Net.{IoError}
use whalemail.Client.Errors.{ResolveError, ClientError}
use whalemail.Client.Network.{
  Connection, NetCall, build_resolver, mx_lookup, Network, now, log, read_reply, connect_to,
  handshake,
}
use whalemail.Client.Session.{run}
use whalemail.Client.Hosts.{IsHostMap, lookup}
use whalemail.Client.Discovery.{
  Elapsed, Opened, ClientCrates, read_greeting, after_handshake, secure, after_tls_port,
  connect_tls, after_plain_port, connect_plaintext, or_else, connect, discover_connection, deliver,
}
use whalemail.Client.Order.{with_preference, Ordered, try_next, try_hosts}
use mathlib.Core.List.{Perm}
use whalemail.Client.Lookup.{IsShuffle}
use whalemail.Client.Found.{discover_connection-try_hosts}
use whalemail.Client.Count.{same_length}
use whalemail.Client.Calls.{AtMost, Within, log-AtMost, continue-AtMost, run-Within}

module _ {M Cert Key Store Acceptor : Type 0} (crates : ClientCrates M Cert Key Store Acceptor)
    (config : Config) where
  read_greeting-Within : (conn : Connection) → Within 1 (read_greeting crates conn)
  unfolding read_greeting read_reply
  read_greeting-Within conn = record { at = λ w. log-AtMost _ w }

  after_handshake-Within :
      (host : Text) (r : Option (Result IoError (Unit {0})))
      → Within 1 (after_handshake crates host r)
  after_handshake-Within host none = record { at = λ w. omega arith }
  after_handshake-Within host (some (err e)) = record { at = λ w. omega arith }
  after_handshake-Within host (some (ok u)) = record { at = (read_greeting-Within _).at }

  secure-Within :
      (host : Text) (valid : Bool) (s : Option Store) → Within 2 (secure crates host valid s)
  unfolding handshake
  secure-Within host valid none = record { at = λ w. omega arith }
  secure-Within host false (some s) = record { at = λ w. omega arith }
  secure-Within host true (some s) = record {
    at = λ w.
        omega (arith, log-AtMost _ w, (after_handshake-Within host (w.handshakes (now w))).at _);
  }

  after_tls_port-Within :
      (host : Text) (r : Option (Result IoError (Unit {0})))
      → Within 2 (after_tls_port crates config host r)
  after_tls_port-Within host none = record { at = λ w. omega arith }
  after_tls_port-Within host (some (err e)) = record { at = λ w. omega arith }
  after_tls_port-Within host (some (ok u)) = record { at = (secure-Within host _ _).at }

  after_plain_port-Within :
      (host : Text) (r : Option (Result IoError (Unit {0})))
      → Within 1 (after_plain_port crates host r)
  after_plain_port-Within host none = record { at = λ w. omega arith }
  after_plain_port-Within host (some (err e)) = record { at = λ w. omega arith }
  after_plain_port-Within host (some (ok u)) = record { at = (read_greeting-Within _).at }

  connect_tls-Within : (host : Text) → Within 3 (connect_tls crates config host)
  unfolding connect_tls connect_to
  connect_tls-Within host = record {
    at = λ w. omega (arith, log-AtMost _ w, (after_tls_port-Within host (w.connects (now w))).at _);
  }

  connect_plaintext-Within : (host : Text) → Within 2 (connect_plaintext crates host)
  unfolding connect_plaintext connect_to
  connect_plaintext-Within host = record {
    at = λ w.
        omega (arith, log-AtMost _ w, (after_plain_port-Within host (w.connects (now w))).at _);
  }

  or_else-AtMost :
      (a n : ℕ) (w : Network) (r : Outcome Elapsed (Option Opened) × Network)
      (next : Action ClientError Network (Option Opened))
      → AtMost a w r.1
      → Within n next
      → AtMost (a + n) w (or_else crates r next).1
  or_else-AtMost a n w (done (some o), w') next h hn = omega (arith, h)
  or_else-AtMost a n w (done none, w') next h hn = omega (arith, h, hn.at w')
  or_else-AtMost a n w (failed e, w') next h hn = omega (arith, h, hn.at w')
  or_else-AtMost a n w (panicked, w') next h hn = omega (arith, h)

  plain-Within :
      (host : Text) → Within 2 (λ w. or_else crates (connect_plaintext crates host w) (pure none))
  plain-Within host = record {
    at = λ w.
        or_else-AtMost 2 0 w (connect_plaintext crates host w) (pure none)
          ((connect_plaintext-Within host).at w) (record { at = λ v. omega arith });
  }

  connect-Within : (host : Text) → Within 5 (connect crates config host)
  unfolding connect
  connect-Within host = record {
    at = λ w.
        or_else-AtMost 3 2 w (connect_tls crates config host w) _ ((connect_tls-Within host).at w)
          (plain-Within host);
  }

  try_next-AtMost :
      (n : ℕ) (w : Network) (r : Outcome ClientError (Option Opened) × Network)
      (next : Action ClientError Network Opened)
      → AtMost 5 w r.1
      → Within n next
      → AtMost (5 + n) w (try_next crates config r next).1
  try_next-AtMost n w (done (some o), w') next h hn = omega (arith, h)
  try_next-AtMost n w (done none, w') next h hn = omega (arith, h, hn.at w')
  try_next-AtMost n w (failed e, w') next h hn = omega (arith, h)
  try_next-AtMost n w (panicked, w') next h hn = omega (arith, h)

  next_host-Within :
      (host : Text) (n : ℕ) (next : Action ClientError Network Opened)
      → Within (5 * n) next
      → Within (5 * suc n) (λ w. try_next crates config (connect crates config host w) next)
  next_host-Within host n next h = record { at = λ w. omega (arith, counted w) }
    where
      counted :
          (w : Network)
          → AtMost (5 + 5 * n) w (try_next crates config (connect crates config host w) next).1
      counted w =
          try_next-AtMost (5 * n) w (connect crates config host w) next ((connect-Within host).at w)
            h

  try_hosts-Within :
      (l : List (ℕ × Text)) → Within (5 * length l) (try_hosts crates config (map (λ x. x.1) l))
  unfolding try_hosts
  try_hosts-Within [] = record { at = λ w. omega arith }
  try_hosts-Within (x ∷ l) = next_host-Within x.1 (length l) _ (try_hosts-Within l)

  -- the hosts of an answer of the name server
  abbrev pub hosts_in : Result ResolveError (List (ℕ × Text)) → List (ℕ × Text)
  hosts_in (err e) = []
  hosts_in (ok r) = r

  -- the answer to the lookup behind the call for a resolver
  abbrev pub answer_in : Network → Result ResolveError (List (ℕ × Text))
  answer_in w = w.mx (now (log build_resolver w))

  two-AtMost : (c d : NetCall) (w : Network) → AtMost 2 w (log d (log c w))
  two-AtMost c d w = omega (arith, log-AtMost c w, log-AtMost d (log c w))

  module _ (laws : IsHostMap crates.hosts) (shuffled : IsShuffle crates.shuffle) where
    discover-AtMost :
        (remote_addr : Text) (w : Network) (s : Result ResolveError (Unit {0}))
        (a : Result ResolveError (List (ℕ × Text)))
        → w.resolver (now w) ≡ s
        → answer_in w ≡ a
        → AtMost (2 + 5 * length (hosts_in a)) w (discover_connection crates config remote_addr w).1
    unfolding discover_connection lookup
    discover-AtMost remote_addr w (err e) a p q = rw p (omega (arith, log-AtMost build_resolver w))
    discover-AtMost remote_addr w (ok u) (err e) p q =
        rw (p, q) (two-AtMost build_resolver (mx_lookup remote_addr) w)
    discover-AtMost remote_addr w (ok u) (ok r) p q = omega (
      arith,
      two-AtMost build_resolver (mx_lookup remote_addr) w,
      same_length l r same,
      ap (λ o. length o.1.calls) runs,
      (try_hosts-Within l).at (log (mx_lookup remote_addr) (log build_resolver w)),
    )
      where
        found :
            (l : List (ℕ × Text)) × Ordered l
            × ((k : ℕ) → Perm (with_preference l k) (with_preference r k))
            × (discover_connection crates config remote_addr w
                ≡ try_hosts crates config
                    (map (λ x. x.1) l)
                    (log (mx_lookup remote_addr) (log build_resolver w)))
        found = discover_connection-try_hosts crates laws config shuffled remote_addr w r p q

        l : List (ℕ × Text)
        l = found.0

        same : (k : ℕ) → Perm (with_preference l k) (with_preference r k)
        same = found.2

        runs :
            discover_connection crates config remote_addr w
            ≡ try_hosts crates config
                (map (λ x. x.1) l)
                (log (mx_lookup remote_addr) (log build_resolver w))
        runs = found.3

    -- With a multimap that keeps its laws and a random generator that shuffles, a delivery makes at
    -- most 11 calls on the network, 5 more for each host that the name server answers, and 2 more
    -- for each recipient.
    pub deliver-calls :
        (e : Envelope) (rs : List MailAddress) (w : Network)
        → length (deliver crates config e rs w).1.calls
          ≤ length w.calls + (11 + 5 * length (hosts_in (answer_in w)) + 2 * length rs)
    unfolding deliver
    deliver-calls e [] w = omega arith
    deliver-calls e (r ∷ rs) w = omega (
      arith,
      continue-AtMost (2 + 5 * length (hosts_in (answer_in w))) (9 + 2 * length (r ∷ rs)) w
          (discover_connection crates config r.domain w) (λ opened. run opened.0 config e (r ∷ rs))
          (discover-AtMost r.domain w _ _ refl refl)
          (λ opened. run-Within opened.0 config e (r ∷ rs)),
    )
