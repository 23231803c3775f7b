-- ===== src/Process/Running.antt =====
-- That the server goes on running.
use whalemail.Prelude.{ℕ, ◌≢◌, List, All}
use whalemail.Prelude.Outcome.{Result, ok, err}
use whalemail.Prelude.Action.{Outcome, Action}
use whalemail.Prelude.Calm.{Calm}
use whalemail.Config.{Config}
use whalemail.UserDb.{Answers, HasHomes, UserDb}
use whalemail.MultiMap.{IsMultiMap}
use whalemail.Auth.Session.{IsSasl}
use whalemail.Auth.Calm.{Prompts}
use whalemail.Net.{IoError}
use whalemail.Command.Ascii.{IsAscii}
use whalemail.Queue.Sorted.{IsSorted}
use whalemail.Smtp.Crates.{Crates}
use whalemail.Smtp.Session.{input_text}
use whalemail.Client.Network.{Network}
use whalemail.Client.Hosts.{IsHostMap}
use whalemail.Client.Lookup.{IsShuffle}
use whalemail.Client.Discovery.{ClientCrates}
use whalemail.Client.Safe.{HasTls, HasNames}
use whalemail.Maildir.Stored.{HasClock}
use whalemail.Process.{Server, Served, crashed, Incoming, plain, tls}

-- what is read is handed to the handler as ASCII
abbrev pub ReadsAscii : Result IoError (List ℕ) → Type 0
ReadsAscii (err e) = Unit
ReadsAscii (ok bytes) = IsAscii (input_text bytes)

abbrev pub IncomingAscii : Incoming → Type 0
IncomingAscii (plain (ok a)) = All ReadsAscii a.reads
IncomingAscii (tls (ok (ok a))) = All ReadsAscii a.reads
IncomingAscii _ = Unit

module _ {Session M HM Cert Key Store Acceptor : Type 0} (crates : Crates Session M)
    (sasl_laws : IsSasl crates.sasl) (prompts : Prompts crates.sasl)
    (map_laws : IsMultiMap crates.multimap) (clock : HasClock crates.unix_time)
    (client : ClientCrates HM Cert Key Store Acceptor) (config : Config) (db : UserDb)
    (answers : Answers db) (homes : HasHomes db) where
  module _ (has_tls : HasTls client config) (host_laws : IsHostMap client.hosts)
      (shuffled : IsShuffle client.shuffle) where
    -- no panic, and what the next client needs
    abbrev Runs : Served × Server → Type 0
    Runs r = (r.0 ≢ crashed) × IsSorted r.1.queue × HasNames client config r.1.network
