-- ===== src/Tests/Start.antt =====
-- The theorems on the main program, the database of users and file names at concrete inputs.
use whalemail.Prelude.{
  false, ◌≡◌, ◌↔◌, refl, Option, none, some, List, [], ◌∷◌, ◌++◌, if◌then◌else◌,
}
use whalemail.Prelude.Outcome.{ok}
use whalemail.Prelude.Action.{done, panicked}
use whalemail.Text.{Text, codes, text_eq, contains, starts_with, split, split_from, cons_head}
use whalemail.Config.{Config}
use whalemail.Config.Load.{load}
use whalemail.User.{User, Authorized}
use whalemail.Envelope.{MailAddress, new_address, of_pieces}
use whalemail.Envelope.Pieces.{IsFree, at, of_parts, IsPrinted, new_address_iff}
use whalemail.Postgres as Pg
use whalemail.Postgres.Login.{Answers, authenticate-account}
use whalemail.Smtp.Unchecked.{check_sender-short_name}
use whalemail.Prelude.{if◌then◌else◌}
use whalemail.Prelude.Action.{pure, ◌>>◌}
use whalemail.Smtp.Crates.{send}
use whalemail.Smtp.State.{ehlo, msg_unauthorized}
use whalemail.Smtp.Mail.{accept_mail, check_sender}
use whalemail.Client.Discovery.{connect}
use whalemail.Process.{Server, Incoming, plain, start, accept_loop}
use whalemail.Process.Closed.{accept_loop-network}
use whalemail.Process.Started.{connect-start}
use whalemail.Prelude.{◌≢◌}
use whalemail.Queue.{fire}
use whalemail.Queue.Sorted.{IsSorted}
use whalemail.Tls.{read_entries, add_certs, read_ca_certs, build_tls_connector}
use whalemail.Client.Safe.{HasTls, HasNames, IsName}
use whalemail.Prelude.{true, false, ℕ, subst, All, map, ◌+◌, Option, some}
use whalemail.Maildir.{create_dir_all}
use whalemail.Client.Discovery.{deliver_remote}
use whalemail.Process.Sorted.{accept_loop-IsSorted, fire-remote}
use whalemail.Tests.Mails.{sender, letter}
use whalemail.Maildir.{Storage, maildir_file_name}
use whalemail.Maildir.Names.{millis, maildir_file_name_iff}
use whalemail.Tests.Maps.{assoc_map-IsMultiMap}
use whalemail.Tests.Library.{
  TestSession, test_crates, test_sasl-IsSasl, test_config, host, closed_db, test_db, test_env,
  test_disk,
}
use whalemail.Tests.Samples.{reads_of, relay_attempt}
use whalemail.Tests.Hosts.{table-IsHostMap, test_client, test_client-IsShuffle, test_net}

abbrev pub new_server : Server
new_server = record {
  disk = test_disk;
  queue = record { entries = [] };
  rng = 0;
  network = test_net;
}

-- one client that sends mail to a remote host, and closes the connection
abbrev clients : List Incoming
clients =
    plain (ok (record { socket = test_env.socket; reads = reads_of relay_attempt ++ ok [] ∷ [] }))
    ∷ []

accept_loop-network_example :
    ((accept_loop test_crates test_client test_config closed_db clients new_server).1.queue
      ≡ record { entries = [] })
    × ((accept_loop test_crates test_client test_config closed_db clients new_server).1.network
        ≡ test_net)
accept_loop-network_example =
    accept_loop-network test_crates test_sasl-IsSasl assoc_map-IsMultiMap test_client test_config
      closed_db (λ a p e. cc) clients new_server refl

abbrev test_db_client : Pg.Client
test_db_client = record {
  query_users = λ name domain password. ok ((name, domain) ∷ []);
  query_homes = λ name domain. ok (some (codes "/a") ∷ []);
}

-- a configuration file without a directory of certificates
abbrev test_file : Text → Option Text
test_file name = if text_eq name (codes "cert_dir") then none else some (codes "h.tld")

abbrev pub loaded : Config
loaded = record {
  hostname = host;
  bind_ip = host;
  bind_ip_tls = host;
  cert_dir = none;
  trusted_ca_cert_dir = some host;
  log_level = host;
  maildir_config = record { user_maildir_path = host };
  userdb_config = record {
    hostname = host;
    postgres_database = host;
    postgres_username = host;
    postgres_password = host;
  };
}

abbrev connected : Pg.Postgres
connected = record { hostname = host; client = test_db_client }

started :
    start test_client.files (λ s. ok test_db_client) (λ ip. ok tt) test_file
    ≡ done (loaded, connected, none)
unfolding start load text_eq Pg.build
started = refl

connect-start_example : (connect test_client loaded (codes "mx.y.tld") test_net).0 ≡ panicked
connect-start_example =
    connect-start test_client.files (λ s. ok test_db_client) (λ ip. ok tt) test_file test_client
      loaded connected (codes "mx.y.tld") test_net started refl

abbrev a_user : Authorized
a_user = record { hostname = host; identity = codes "a"; username = codes "a" }

host-IsFree : IsFree host
unfolding contains starts_with
host-IsFree = refl

a-IsFree : IsFree (codes "a")
unfolding contains starts_with
a-IsFree = refl

authenticate-account_example :
    (IsFree a_user.username
      → Answers connected a_user (codes "pw") (some (a_user.username, connected.hostname)))
    × ((l d : Text)
        → IsFree l
        → IsFree d
        → a_user.username ≡ at l d
        → Answers connected a_user (codes "pw") (some (l, d)))
    × ((l m r : Text)
        → IsFree l
        → IsFree m
        → a_user.username ≡ at l (at m r)
        → Answers connected a_user (codes "pw") none)
authenticate-account_example = authenticate-account connected a_user (codes "pw") host-IsFree

abbrev short_user : User
short_user = record { hostname = host; identity = codes "a"; username = codes "a" }

abbrev pub own_address : MailAddress
own_address = of_parts (codes "a") host host

pub own_address-parsed : new_address (codes "a@h.tld") host ≡ some own_address
unfolding new_address of_pieces split split_from starts_with cons_head text_eq
own_address-parsed = refl

check_sender-short_name_example :
    check_sender {Session = TestSession} test_db
      (ehlo (record { authorized = some short_user }))
      own_address
      test_env
    ≡ (if true
        then (do send msg_unauthorized; pure (ehlo (record { authorized = some short_user })))
            test_env
        else accept_mail test_db
            (record own_address { is_local_mailbox = some false })
            (some short_user)
            test_env)
check_sender-short_name_example =
    check_sender-short_name test_db short_user (codes "a@h.tld") host own_address true test_env
      a-IsFree own_address-parsed (unfold text_eq in refl)

new_address_iff_example :
    (new_address (codes "a@h.tld") host ≡ some own_address)
    ↔ IsPrinted (codes "a@h.tld") host own_address
new_address_iff_example = new_address_iff (codes "a@h.tld") host own_address

abbrev pub queued : Server
queued = record new_server {
  queue = record { entries = record { envelope = letter; rcpt_groups = (sender ∷ []) ∷ [] } ∷ [] };
}

pub queued-IsSorted : IsSorted queued.queue
queued-IsSorted = (((λ e. cc, codes "x.tld", ((refl, refl), tt)), tt), tt)

accept_loop-IsSorted_example :
    IsSorted (accept_loop test_crates test_client test_config test_db clients queued).1.queue
accept_loop-IsSorted_example =
    accept_loop-IsSorted test_crates test_sasl-IsSasl assoc_map-IsMultiMap test_client test_config
      test_db clients queued queued-IsSorted

abbrev pub tls_config : Config
tls_config = record loaded { cert_dir = some (codes "/c") }

pub test_client-HasTls : HasTls test_client tls_config
unfolding build_tls_connector read_ca_certs read_entries add_certs
test_client-HasTls = record { store = tt; built = refl }

pub test_net-HasNames : HasNames test_client tls_config test_net
unfolding text_eq
test_net-HasNames n r e =
    subst (λ r. All (IsName test_client tls_config) (map (λ (x : ℕ × Text). x.1) r))
      {x = (20, codes "mx2.y.tld") ∷ (10, codes "mx.y.tld") ∷ []} (cc e) (refl, (refl, tt))

fire-remote_example : (fire (deliver_remote test_client tls_config) queued.queue test_net).0 ≢ none
fire-remote_example =
    fire-remote test_client tls_config test_client-HasTls table-IsHostMap test_client-IsShuffle
      queued.queue test_net queued-IsSorted test_net-HasNames

abbrev first_second : ℕ
first_second = 1700000000

-- the clock goes on by a second at each call of the file system
abbrev ticking : ℕ → Option ℕ
ticking n = some (first_second + n)

-- a storage that was made a second later, and is asked behind a call
abbrev later_storage : Storage
later_storage = record test_env.storage {
  disk = record test_disk { calls = create_dir_all [] ∷ []; instant = λ n. 1005000000 };
  base_instant = 1000000000;
}

maildir_file_name_iff_example :
    (maildir_file_name test_crates.path_push ticking test_env.storage
      ≡ maildir_file_name test_crates.path_push ticking later_storage)
    ↔ ((first_second ≡ first_second + 1) × (millis test_env.storage ≡ millis later_storage))
maildir_file_name_iff_example =
    maildir_file_name_iff test_crates.path_push ticking test_env.storage later_storage first_second
      (first_second + 1) refl refl refl
