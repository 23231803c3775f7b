-- ===== src/Client/Discovery.antt =====
-- How a connection is found and a mail delivered: `read_greeting`, `connect_tls`, `connect_plaintext`,
-- `connect`, `discover_connection` and `deliver` of `SmtpClient`.
use whalemail.Prelude.{
  ℕ, zero, suc, ◌+◌, Bool, true, false, Option, none, some, List, [], ◌∷◌, ◌++◌, length,
}
use whalemail.Prelude.Outcome.{Result, ok, err}
use whalemail.Prelude.Action.{
  Outcome, done, failed, panicked, Action, pure, panic, fail, ◌>>=◌, ◌>>◌,
}
use whalemail.Text.{Text, codes}
use whalemail.Config.{Config}
use whalemail.Envelope.{MailAddress, Envelope}
use whalemail.MultiMap.{values_of}
use whalemail.Net.{IoError}
use whalemail.Tls.{TlsFiles, build_tls_connector}
use whalemail.Client.Errors.{
  ResolveError, ClientError, RemoteDeliveryError, from_resolve_error, from_client_error,
}
use whalemail.Client.Network.{
  tls, tcp, Connection, Network, build_resolver, now, log, read_reply, connect_to, handshake,
}
use whalemail.Client.Hosts.{HostMap, pop_host, lookup}
use whalemail.Client.Session.{run}

-- the time limit of an attempt has passed
pub data Elapsed : Type 0 where
  elapsed : Elapsed

-- a connection, and the name by which the remote host greets
abbrev pub Opened : Type 0
Opened = Connection × Text

-- Third-party code: the regular expression's match with its group, the names that are valid names of
-- servers, the multimap and the random generator.
pub record ClientCrates (M Cert Key Store Acceptor : Type 0) : Type 0 where
  pub greeting : Text → Option (Option Text)
  pub server_name : Text → Bool
  pub hosts : HostMap M
  pub shuffle : ℕ → List Text → List Text
  pub files : TlsFiles Cert Key Store Acceptor

-- the bound of the loop over the hosts: all hosts of the keys
unfoldable pub total : {M : Type 0} → HostMap M → M → List ℕ → ℕ
total hm m [] = 0
total hm m (k ∷ ks) = length (values_of (hm.get_vec m k)) + total hm m ks

module _ {M Cert Key Store Acceptor : Type 0}
    (crates : ClientCrates M Cert Key Store Acceptor) where
  abbrev pub greeted : Connection → Option (Option Text) → Option Opened
  greeted conn none = none
  greeted conn (some none) = none
  greeted conn (some (some host)) = some (conn, host)

  abbrev pub judge_greeting :
      Connection → Option (Result IoError Text) → Outcome Elapsed (Option Opened)
  judge_greeting conn none = failed elapsed
  judge_greeting conn (some (err e)) = done none
  judge_greeting conn (some (ok s)) = done (greeted conn (crates.greeting s))

  -- `read_greeting`, and what both callers do with its result
  unfoldable pub read_greeting : Connection → Action Elapsed Network (Option Opened)
  read_greeting conn w = let r = read_reply conn w in (judge_greeting conn r.0, r.1)

  abbrev pub after_handshake :
      Text → Option (Result IoError (Unit {0})) → Action Elapsed Network (Option Opened)
  after_handshake host none = fail elapsed
  after_handshake host (some (err e)) = pure none
  after_handshake host (some (ok u)) = read_greeting (record { security = tls; host = host })

  abbrev pub secure : Text → Bool → Option Store → Action Elapsed Network (Option Opened)
  secure host valid none w = (panicked, w)
  secure host false (some store) w = (panicked, w)
  secure host true (some store) w = let r = handshake host w in after_handshake host r.0 r.1

  abbrev pub after_tls_port :
      Config → Text → Option (Result IoError (Unit {0})) → Action Elapsed Network (Option Opened)
  after_tls_port config host none = fail elapsed
  after_tls_port config host (some (err e)) = pure none
  after_tls_port config host (some (ok u)) =
      secure host (crates.server_name host) (build_tls_connector crates.files config)

  unfoldable pub connect_tls : Config → Text → Action Elapsed Network (Option Opened)
  connect_tls config host w =
      let r = connect_to (host ++ codes ":465") w in after_tls_port config host r.0 r.1

  abbrev pub after_plain_port :
      Text → Option (Result IoError (Unit {0})) → Action Elapsed Network (Option Opened)
  after_plain_port host none = fail elapsed
  after_plain_port host (some (err e)) = pure none
  after_plain_port host (some (ok u)) = read_greeting (record { security = tcp; host = host })

  unfoldable pub connect_plaintext : Text → Action Elapsed Network (Option Opened)
  connect_plaintext host w =
      let r = connect_to (host ++ codes ":25") w in after_plain_port host r.0 r.1

  -- an attempt that failed or took too long gives way to the next
  abbrev pub or_else :
      Outcome Elapsed (Option Opened) × Network
      → Action ClientError Network (Option Opened)
      → Outcome ClientError (Option Opened) × Network
  or_else (done (some opened), w) next = (done (some opened), w)
  or_else (done none, w) next = next w
  or_else (failed e, w) next = next w
  or_else (panicked, w) next = (panicked, w)

  unfoldable pub connect : Config → Text → Action ClientError Network (Option Opened)
  connect config host w =
      or_else (connect_tls config host w) (λ w'. or_else (connect_plaintext host w') (pure none))

  abbrev pub Probed : Type 0
  Probed = Option (Outcome ClientError Opened × Network)

  -- the body of the loop, with the rest of it
  abbrev pub or_next : Outcome ClientError (Option Opened) × Network → (Network → Probed) → Probed
  or_next (done (some opened), w) rest = some (done opened, w)
  or_next (done none, w) rest = rest w
  or_next (failed e, w) rest = some (failed e, w)
  or_next (panicked, w) rest = some (panicked, w)

  abbrev pub try_host :
      Config → Option (Option Text × M) → Network → (M → Network → Probed) → Probed
  try_host config none w rest = some (panicked, w)
  try_host config (some (none, m)) w rest = some (failed ClientError.no_smtp_host_error, w)
  try_host config (some (some host, m)) w rest = or_next (connect config host w) (rest m)

  -- The loop of `discover_connection`. Out of fuel it is `none`.
  unfoldable pub probe : ℕ → Config → M → Network → Probed
  probe zero config m w = none
  probe (suc fuel) config m w =
      try_host config (pop_host crates.hosts m) w (λ m' w'. probe fuel config m' w')

  -- with the fuel that is enough; `none` is then ruled out
  abbrev pub within_fuel : Network → Probed → Outcome ClientError Opened × Network
  within_fuel w none = (panicked, w)
  within_fuel w (some r) = r

  unfoldable pub probe_all : Config → M → Action ClientError Network Opened
  probe_all config m w =
      within_fuel w (probe (suc (total crates.hosts m (crates.hosts.keys m))) config m w)

  abbrev pub lift_resolve :
      {A : Type 0} → Outcome ResolveError A × Network → Outcome ClientError A × Network
  lift_resolve (done a, w) = (done a, w)
  lift_resolve (failed e, w) = (failed (from_resolve_error e), w)
  lift_resolve (panicked, w) = (panicked, w)

  abbrev pub resolver_of : Result ResolveError (Unit {0}) → Outcome ResolveError (Unit {0})
  resolver_of (ok u) = done u
  resolver_of (err e) = failed e

  unfoldable pub discover_connection : Config → Text → Action ClientError Network Opened
  discover_connection config remote_addr = do
    (λ w. lift_resolve (resolver_of (w.resolver (now w)), log build_resolver w))
    m ← λ w. lift_resolve (lookup crates.hosts crates.shuffle remote_addr w)
    probe_all config m

  -- `SmtpClient::deliver`; a group with no recipients is a panic
  unfoldable pub deliver :
      Config → Envelope → List MailAddress → Action ClientError Network (Unit {0})
  deliver config envelope [] = panic
  deliver config envelope (r ∷ rs) = do
    opened ← discover_connection config r.domain
    run opened.0 config envelope (r ∷ rs)

  abbrev pub to_remote_error :
      Outcome ClientError (Unit {0}) × Network → Outcome RemoteDeliveryError (Unit {0}) × Network
  to_remote_error (done u, w) = (done u, w)
  to_remote_error (failed e, w) = (failed (from_client_error e), w)
  to_remote_error (panicked, w) = (panicked, w)

  -- `Queue::deliver`
  unfoldable pub deliver_remote :
      Config
      → Envelope
      → List MailAddress
      → Network
      → Outcome RemoteDeliveryError (Unit {0}) × Network
  deliver_remote config envelope recipients w =
      to_remote_error (deliver config envelope recipients w)
