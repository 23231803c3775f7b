-- ===== src/Process/Started.antt =====
-- What holds once the server has started.
use whalemail.Prelude.{ℕ, true, false, ◌≡◌, refl, sym, ap, subst, ◌∙◌, Option, none, some}
use whalemail.Prelude.Outcome.{Result, ok, err}
use whalemail.Prelude.Action.{Outcome, done, failed, panicked}
use whalemail.Text.{Text, codes}
use whalemail.Config.{Config}
use whalemail.Config.Load.{ConfigError, load, WithCerts, load-WithCerts}
use whalemail.UserDb.{DbError}
use whalemail.MultiMap.{is_some}
use whalemail.Postgres as Pg
use whalemail.Net.{IoError}
use whalemail.Tls.{TlsFiles, build_tls_acceptor, build_tls_connector}
use whalemail.Client.Network.{Network, now}
use whalemail.Client.Discovery.{ClientCrates, connect}
use whalemail.Process.{
  Started, bind_tls, with_acceptor, start_tls, start_plain, with_db, with_config, start,
}

module _ {Cert Key Store Acceptor : Type 0} (files : TlsFiles Cert Key Store Acceptor)
    (connect_db : Text → Result ℕ Pg.Client) (bind : Text → Result IoError (Unit {0}))
    (get : Text → Option Text) where
  -- if started, then with the loaded configuration, and with a second listener if that has a directory
  -- of certificates
  abbrev IsConfigured : Outcome IoError (Started files connect_db bind) → Type 0
  IsConfigured (done (config, db, listener)) =
      (load get ≡ ok config) × (is_some listener ≡ is_some (get (codes "cert_dir")))
  IsConfigured (failed e) = Unit
  IsConfigured panicked = Unit

  module _ (config : Config) (loaded : load get ≡ ok config) (certs : WithCerts get (ok config))
      (db : Pg.Postgres) where
    bind_tls-IsConfigured :
        (acceptor : Acceptor) (r : Result IoError (Unit {0}))
        → is_some config.cert_dir ≡ true
        → IsConfigured (bind_tls files connect_db bind config db acceptor r)
    bind_tls-IsConfigured acceptor (err x) e = tt
    bind_tls-IsConfigured acceptor (ok u) e = (loaded, sym e ∙ ap is_some certs.0)

    with_acceptor-IsConfigured :
        (o : Option Acceptor)
        → is_some config.cert_dir ≡ true
        → IsConfigured (with_acceptor files connect_db bind config db o)
    with_acceptor-IsConfigured none e = tt
    with_acceptor-IsConfigured (some acceptor) e = bind_tls-IsConfigured acceptor _ e

    start_tls-IsConfigured :
        (cert_dir ca_dir : Option Text)
        → config.cert_dir ≡ cert_dir
        → config.trusted_ca_cert_dir ≡ ca_dir
        → IsConfigured (start_tls files connect_db bind config db cert_dir ca_dir)
    start_tls-IsConfigured none ca_dir e f = (loaded, ap is_some (sym e ∙ certs.0))
    start_tls-IsConfigured (some cert_dir) none e f = cc (ap is_some f, certs.1)
    start_tls-IsConfigured (some cert_dir) (some ca_dir) e f =
        with_acceptor-IsConfigured (build_tls_acceptor files cert_dir ca_dir) (ap is_some e)

    start_plain-IsConfigured :
        (r : Result IoError (Unit {0}))
        → IsConfigured (start_plain files connect_db bind config db r)
    start_plain-IsConfigured (err x) = tt
    start_plain-IsConfigured (ok u) = start_tls-IsConfigured _ _ refl refl

  with_db-IsConfigured :
      (config : Config) (r : Result DbError Pg.Postgres)
      → load get ≡ ok config
      → WithCerts get (ok config)
      → IsConfigured (with_db files connect_db bind config r)
  with_db-IsConfigured config (err x) loaded certs = tt
  with_db-IsConfigured config (ok db) loaded certs =
      start_plain-IsConfigured config loaded certs db _

  with_config-IsConfigured :
      (r : Result ConfigError Config)
      → load get ≡ r
      → WithCerts get r
      → IsConfigured (with_config files connect_db bind r)
  with_config-IsConfigured (err x) loaded certs = tt
  with_config-IsConfigured (ok config) loaded certs = with_db-IsConfigured config _ loaded certs

  -- If the server starts, then with the configuration that is loaded, and it listens for TLS if and
  -- only if the configuration file names a directory of certificates.
  pub start-listener :
      (config : Config) (db : Pg.Postgres) (listener : Option Acceptor)
      → start files connect_db bind get ≡ done (config, db, listener)
      → (load get ≡ ok config) × (is_some listener ≡ is_some (get (codes "cert_dir")))
  unfolding start
  start-listener config db listener e =
      subst IsConfigured e (with_config-IsConfigured (load get) refl (load-WithCerts get))

  none_of : (o : Option Text) → is_some o ≡ false → o ≡ none
  none_of none e = refl
  none_of (some t) e = cc

  -- If the server starts without listening for TLS and a remote host accepts a connection on port 465,
  -- then connecting to that host panics.
  pub connect-start :
      {HM : Type 0} (client : ClientCrates HM Cert Key Store Acceptor)
      → (config : Config) (db : Pg.Postgres) (host : Text) (w : Network)
      → start files connect_db bind get ≡ done (config, db, none)
      → w.connects (now w) ≡ some (ok tt)
      → (connect client config host w).0 ≡ panicked
  unfolding connect whalemail.Client.Discovery.connect_tls build_tls_connector
      whalemail.Client.Network.connect_to
  connect-start client config db host w e answered = rw (answered, no_certs) refl
    where
      configured :
          (load get ≡ ok config) × (is_some {A = Acceptor} none ≡ is_some (get (codes "cert_dir")))
      configured = start-listener config db none e

      no_certs : config.cert_dir ≡ none
      no_certs = none_of config.cert_dir (
          ap is_some (subst (WithCerts get) (configured.0) (load-WithCerts get)).0
          ∙ sym configured.1)
