-- ===== src/Client/Safe.antt =====
-- When a delivery does not panic.
use whalemail.Prelude.{
  ◌++◌, All, subst, ℕ, true, ◌≡◌, ◌≢◌, refl, sym, ap, ◌∙◌, Option, none, some, List, [], ◌∷◌, map,
}
use whalemail.Prelude.Outcome.{Result, ok, err}
use whalemail.Prelude.Action.{Outcome, done, failed, panicked, Action, pure, continue}
use whalemail.Text.{Text, codes}
use whalemail.Config.{Config}
use whalemail.Envelope.{MailAddress, Envelope}
use whalemail.Net.{IoError}
use whalemail.Tls.{build_tls_connector}
use whalemail.Client.Errors.{ResolveError, ClientError}
use whalemail.Client.Network.{
  Connection, Network, NetCall, mx_lookup, tls_connect, read_reply, connect_to, handshake, now,
  build_resolver, log,
}
use whalemail.Client.Session.{run}
use whalemail.Client.Transcript.{Wrote, script, run-Wrote}
use whalemail.Client.Hosts.{IsHostMap, lookup}
use whalemail.Client.Discovery.{
  Elapsed, Opened, ClientCrates, judge_greeting, read_greeting, after_handshake, secure,
  after_tls_port, connect_tls, after_plain_port, connect_plaintext, or_else, connect,
  discover_connection, deliver, to_remote_error, deliver_remote,
}
use whalemail.Client.Logged.{run-mx}
use whalemail.Client.Names.{names}
use whalemail.Client.Order.{try_next, try_hosts}
use whalemail.Client.Lookup.{IsShuffle}
use whalemail.Client.Found.{discover_connection-try_hosts}

-- The TLS connector can be built.
pub record HasTls {M Cert Key Store Acceptor : Type 0}
    (crates : ClientCrates M Cert Key Store Acceptor) (config : Config) : Type 0 where
  pub store : Store
  pub built : build_tls_connector crates.files config ≡ some store

run-calm :
    (conn : Connection) (config : Config) (e : Envelope) (rs : List MailAddress) (w : Network)
    → (run conn config e rs w).0 ≢ panicked
run-calm conn config e rs w = by_result (run conn config e rs w) (run-Wrote conn config e rs w)
  where
    by_result :
        (r : Outcome ClientError (Unit {0}) × Network)
        → Wrote conn (script conn config e rs) (codes "QUIT\r\n" ∷ []) w r
        → r.0 ≢ panicked
    by_result (done u, w') h n = cc
    by_result (failed x, w') h n = cc
    by_result (panicked, w') h n = h

module _ {M Cert Key Store Acceptor : Type 0} (crates : ClientCrates M Cert Key Store Acceptor)
    (config : Config) where
  abbrev pub IsName : Text → Type 0
  IsName host = crates.server_name host ≡ true

  -- the hosts that the name server answers with are valid names of servers
  abbrev pub HasNames : Network → Type 0
  HasNames w = (n : ℕ) (r : List (ℕ × Text)) → w.mx n ≡ ok r → All IsName (map (λ x. x.1) r)

  -- no panic, and the name server's answers are as they were
  abbrev pub Fine : {E A : Type 0} → Outcome E A × Network → Type 0
  Fine r = (r.0 ≢ panicked) × HasNames r.1

  record Safe {E A : Type 0} (m : Action E Network A) : Type 0 where
    at : (w : Network) → HasNames w → Fine (m w)

  run-Safe :
      (conn : Connection) (e : Envelope) (rs : List MailAddress) → Safe (run conn config e rs)
  run-Safe conn e rs = record {
    at = λ w i. (
      run-calm conn config e rs w,
      λ n r a. i n r (ap (λ f. f n) (sym ((run-mx {mx = w.mx} conn config e rs).at w refl).0) ∙ a),
    );
  }

  judge_greeting-Safe :
      (conn : Connection) (r : Option (Result IoError Text))
      → judge_greeting crates conn r ≢ panicked
  judge_greeting-Safe conn none h = cc
  judge_greeting-Safe conn (some (err e)) h = cc
  judge_greeting-Safe conn (some (ok s)) h = cc

  read_greeting-Safe : (conn : Connection) → Safe (read_greeting crates conn)
  unfolding read_greeting read_reply
  read_greeting-Safe conn = record { at = λ w i. (judge_greeting-Safe conn _, i) }

  after_handshake-Safe :
      (host : Text) (r : Option (Result IoError (Unit {0}))) → Safe (after_handshake crates host r)
  after_handshake-Safe host none = record { at = λ w i. (λ h. cc, i) }
  after_handshake-Safe host (some (err e)) = record { at = λ w i. (λ h. cc, i) }
  after_handshake-Safe host (some (ok u)) = record { at = (read_greeting-Safe _).at }

  secure-Safe : (host : Text) (s : Store) → Safe (secure crates host true (some s))
  unfolding handshake
  secure-Safe host s = record {
    at = λ w i. (after_handshake-Safe host (w.handshakes (now w))).at (log (tls_connect host) w) i;
  }

  after_plain_port-Safe :
      (host : Text) (r : Option (Result IoError (Unit {0}))) → Safe (after_plain_port crates host r)
  after_plain_port-Safe host none = record { at = λ w i. (λ h. cc, i) }
  after_plain_port-Safe host (some (err e)) = record { at = λ w i. (λ h. cc, i) }
  after_plain_port-Safe host (some (ok u)) = record { at = (read_greeting-Safe _).at }

  connect_plaintext-Safe : (host : Text) → Safe (connect_plaintext crates host)
  unfolding connect_plaintext connect_to
  connect_plaintext-Safe host = record {
    at = λ w i.
        (after_plain_port-Safe host (w.connects (now w))).at
          (log (NetCall.connect (host ++ codes ":25")) w) i;
  }

  or_else-Safe :
      (r : Outcome Elapsed (Option Opened) × Network)
      (next : Action ClientError Network (Option Opened))
      → Fine r
      → Safe next
      → Fine (or_else crates r next)
  or_else-Safe (done (some o), w) next (n, i) h = (λ e. cc, i)
  or_else-Safe (done none, w) next (n, i) h = h.at w i
  or_else-Safe (failed x, w) next (n, i) h = h.at w i
  or_else-Safe (panicked, w) next (n, i) h = absurd (n refl)

  try_next-Safe :
      (r : Outcome ClientError (Option Opened) × Network) (next : Action ClientError Network Opened)
      → Fine r
      → Safe next
      → Fine (try_next crates config r next)
  try_next-Safe (done (some o), w) next (n, i) h = (λ e. cc, i)
  try_next-Safe (done none, w) next (n, i) h = h.at w i
  try_next-Safe (failed x, w) next (n, i) h = (λ e. cc, i)
  try_next-Safe (panicked, w) next (n, i) h = absurd (n refl)

  module _ (has_tls : HasTls crates config) where
    after_tls_port-Safe :
        (host : Text) (r : Option (Result IoError (Unit {0})))
        → IsName host
        → Safe (after_tls_port crates config host r)
    after_tls_port-Safe host none v = record { at = λ w i. (λ h. cc, i) }
    after_tls_port-Safe host (some (err e)) v = record { at = λ w i. (λ h. cc, i) }
    after_tls_port-Safe host (some (ok u)) v =
        rw (v, has_tls.built) (secure-Safe host has_tls.store)

    connect_tls-Safe : (host : Text) → IsName host → Safe (connect_tls crates config host)
    unfolding connect_tls connect_to
    connect_tls-Safe host v = record {
      at = λ w i.
          (after_tls_port-Safe host (w.connects (now w)) v).at
            (log (NetCall.connect (host ++ codes ":465")) w) i;
    }

    connect-Safe : (host : Text) → IsName host → Safe (connect crates config host)
    unfolding connect
    connect-Safe host v = record {
      at = λ w i.
          or_else-Safe (connect_tls crates config host w) _ ((connect_tls-Safe host v).at w i)
            (record {
              at = λ w' i'.
                  or_else-Safe (connect_plaintext crates host w') (pure none)
                    ((connect_plaintext-Safe host).at w' i') (record { at = λ u k. (λ e. cc, k) });
            });
    }

    try_hosts-Safe : (hosts : List Text) → All IsName hosts → Safe (try_hosts crates config hosts)
    unfolding try_hosts
    try_hosts-Safe [] v = record { at = λ w i. (λ e. cc, i) }
    try_hosts-Safe (host ∷ hosts) (v, vs) = record {
      at = λ w i.
          try_next-Safe (connect crates config host w) (try_hosts crates config hosts)
            ((connect-Safe host v).at w i) (try_hosts-Safe hosts vs);
    }

    module _ (laws : IsHostMap crates.hosts) (shuffled : IsShuffle crates.shuffle) where
      discover-Safe :
          (remote_addr : Text) (w : Network) (s : Result ResolveError (Unit {0}))
          (a : Result ResolveError (List (ℕ × Text)))
          → HasNames w
          → w.resolver (now w) ≡ s
          → w.mx (now (log build_resolver w)) ≡ a
          → Fine (discover_connection crates config remote_addr w)
      unfolding discover_connection lookup
      discover-Safe remote_addr w (err e) a i p q = rw (p, lookup) (λ h. cc, i)
      discover-Safe remote_addr w (ok u) (err e) i p q = rw (p, q, lookup) (λ h. cc, i)
      discover-Safe remote_addr w (ok u) (ok r) i p q =
          let (l, ordered, same, runs) =
            discover_connection-try_hosts crates laws config shuffled remote_addr w r p q in
          subst Fine (sym runs) (
            (try_hosts-Safe (map (λ x. x.1) l) (names crates.server_name l r same (i _ r q))).at
              (log (mx_lookup remote_addr) (log build_resolver w)) i)

      then_run :
          (e : Envelope) (rs : List MailAddress) (r : Outcome ClientError Opened × Network)
          → Fine r
          → Fine (continue r.0 (λ opened. run opened.0 config e rs) r.1)
      then_run e rs (done opened, w) (n, i) = (run-Safe opened.0 e rs).at w i
      then_run e rs (failed x, w) (n, i) = (λ h. cc, i)
      then_run e rs (panicked, w) (n, i) = absurd (n refl)

      to_remote_error-Safe :
          (r : Outcome ClientError (Unit {0}) × Network) → Fine r → Fine (to_remote_error crates r)
      to_remote_error-Safe (done u, w) (n, i) = (λ h. cc, i)
      to_remote_error-Safe (failed x, w) (n, i) = (λ h. cc, i)
      to_remote_error-Safe (panicked, w) (n, i) = absurd (n refl)

      pub deliver_remote-Safe :
          (e : Envelope) (rs : List MailAddress) (w : Network)
          → rs ≢ []
          → HasNames w
          → Fine (deliver_remote crates config e rs w)
      unfolding deliver_remote deliver
      deliver_remote-Safe e [] w ne i = absurd (ne refl)
      deliver_remote-Safe e (r ∷ rs) w ne i = to_remote_error-Safe _ (
          then_run e (r ∷ rs) (discover_connection crates config r.domain w)
            (discover-Safe r.domain w _ _ i refl refl))
