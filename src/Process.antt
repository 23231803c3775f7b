-- ===== src/Process.antt =====
-- src/main.rs: `main` and `process_socket_silent`, with `Storage::new` of src/maildir.rs. All runs
-- in one task, which ends with the first panic. The configuration file, the two listeners and the
-- clients that come are parameters.
pub mod Started
pub mod Keeps
pub mod Closed
pub mod Sorted
pub mod Running
use whalemail.Prelude.{ℕ, Option, none, some, List, [], ◌∷◌, length}
use whalemail.Prelude.Outcome.{Result, ok, err}
use whalemail.Prelude.Action.{Outcome, done, failed, panicked}
use whalemail.Text.{Text}
use whalemail.Config.{Config}
use whalemail.Config.Load.{ConfigError, load}
use whalemail.UserDb.{UserDb, DbError}
use whalemail.Postgres as Pg
use whalemail.Net.{IoError, Socket}
use whalemail.Maildir.{Disk, Storage}
use whalemail.Queue.{Queue, new_queue, fire}
use whalemail.Tls.{TlsFiles, build_tls_acceptor}
use whalemail.Smtp.Crates.{Crates, Env}
use whalemail.Smtp.Session.{Progress, ended, waiting, server_loop}
use whalemail.Client.Errors.{RemoteDeliveryError}
use whalemail.Client.Network.{Network}
use whalemail.Client.Discovery.{ClientCrates, deliver_remote}

-- what the connections share
pub record Server : Type 0 where
  pub disk : Disk
  pub queue : Queue
  pub rng : ℕ
  pub network : Network

-- a client that came, and what is read from it
pub record Arrival : Type 0 where
  pub socket : Socket
  pub reads : List (Result IoError (List ℕ))

-- `Storage::new`
unfoldable pub new_storage : Config → Disk → Storage
new_storage config disk = record {
  hostname = config.hostname;
  config = config.maildir_config;
  base_instant = disk.instant (length disk.calls);
  disk = disk;
}

abbrev pub env_of : Config → Arrival → Server → Env
env_of config a s = record {
  socket = a.socket;
  storage = new_storage config s.disk;
  queue = s.queue;
  rng = s.rng;
}

-- The connection is closed, or the server waits for its next message, or the task panicked.
pub data Served : Type 0 where
  closed still_open crashed : Served

-- a connection attempt on one of the two listeners; on the second the handshake follows
pub data Incoming : Type 0 where
  plain : Result IoError Arrival → Incoming
  tls : Result IoError (Result IoError Arrival) → Incoming

-- how the loop stands: it waits for a client or for a message of one, or the task panicked
pub data Stand : Type 0 where
  accepting serving stopped : Stand

module _ {Session M HM Cert Key Store Acceptor : Type 0} (crates : Crates Session M)
    (client : ClientCrates HM Cert Key Store Acceptor) (config : Config) (db : UserDb) where
  abbrev pub with_env : Env → Network → Server
  with_env env net = record {
    disk = env.storage.disk;
    queue = env.queue;
    rng = env.rng;
    network = net;
  }

  abbrev pub of_fire : Option (List RemoteDeliveryError) → Served
  of_fire none = crashed
  of_fire (some errors) = closed

  -- the queue is fired behind a connection that ended without an error
  abbrev pub after_loop : Network → Outcome IoError (Progress Session) × Env → Served × Server
  after_loop net (done ended, env) =
      let r = fire (deliver_remote client config) env.queue net in
      (of_fire r.0, record (with_env env r.2) { queue = r.1 })
  after_loop net (done (waiting s), env) = (still_open, with_env env net)
  after_loop net (failed e, env) = (closed, with_env env net)
  after_loop net (panicked, env) = (crashed, with_env env net)

  unfoldable pub process_socket_silent : Arrival → Server → Served × Server
  unfolding new_storage
  process_socket_silent a s =
      after_loop s.network (server_loop crates config db a.reads (env_of config a s))

  abbrev pub then_accept : Served × Server → (Server → Stand × Server) → Stand × Server
  then_accept (closed, s) next = next s
  then_accept (still_open, s) next = (serving, s)
  then_accept (crashed, s) next = (stopped, s)

  abbrev pub incoming : Incoming → Server → Served × Server
  incoming (plain (ok a)) s = process_socket_silent a s
  incoming (plain (err e)) s = (closed, s)
  incoming (tls (ok (ok a))) s = process_socket_silent a s
  incoming (tls (ok (err e))) s = (closed, s)
  incoming (tls (err e)) s = (closed, s)

  -- the loop of `main`; without the second listener no client comes over it
  unfoldable pub accept_loop : List Incoming → Server → Stand × Server
  accept_loop [] s = (accepting, s)
  accept_loop (i ∷ is) s = then_accept (incoming i s) (λ s'. accept_loop is s')

-- `main` up to its loop: the configuration, the user database, and the acceptor of the second listener
module _ {Cert Key Store Acceptor : Type 0} (files : TlsFiles Cert Key Store Acceptor)
    (connect : Text → Result ℕ Pg.Client) (bind : Text → Result IoError (Unit {0})) where
  abbrev pub Started : Type 0
  Started = Config × Pg.Postgres × Option Acceptor

  abbrev pub bind_tls :
      Config → Pg.Postgres → Acceptor → Result IoError (Unit {0}) → Outcome IoError Started
  bind_tls config db acceptor (err e) = failed e
  bind_tls config db acceptor (ok u) = done (config, db, some acceptor)

  abbrev pub with_acceptor : Config → Pg.Postgres → Option Acceptor → Outcome IoError Started
  with_acceptor config db none = panicked
  with_acceptor config db (some acceptor) = bind_tls config db acceptor (bind config.bind_ip_tls)

  abbrev pub start_tls : Config → Pg.Postgres → Option Text → Option Text → Outcome IoError Started
  start_tls config db (some cert_dir) (some ca_dir) =
      with_acceptor config db (build_tls_acceptor files cert_dir ca_dir)
  start_tls config db _ _ = done (config, db, none)

  abbrev pub start_plain :
      Config → Pg.Postgres → Result IoError (Unit {0}) → Outcome IoError Started
  start_plain config db (err e) = failed e
  start_plain config db (ok u) = start_tls config db config.cert_dir config.trusted_ca_cert_dir

  abbrev pub with_db : Config → Result DbError Pg.Postgres → Outcome IoError Started
  with_db config (err e) = panicked
  with_db config (ok db) = start_plain config db (bind config.bind_ip)

  abbrev pub with_config : Result ConfigError Config → Outcome IoError Started
  with_config (err e) = panicked
  with_config (ok config) = with_db config (Pg.build connect config.userdb_config)

  unfoldable pub start : (Text → Option Text) → Outcome IoError Started
  start get = with_config (load get)
