-- ===== src/Process/Closed.antt =====
-- That the server is not an open relay, over all of its connections.
use whalemail.Prelude.{◌≡◌, refl, sym, ap, subst, ◌∙◌, ◌≢◌, true, some, List, [], pop_last}
use whalemail.Prelude.Outcome.{ok}
use whalemail.Prelude.Action.{Outcome, done, failed, panicked}
use whalemail.Text.{Text}
use whalemail.Config.{Config}
use whalemail.User.{Authorized}
use whalemail.UserDb.{UserDb}
use whalemail.MultiMap.{IsMultiMap}
use whalemail.Auth.Session.{IsSasl}
use whalemail.Net.{IoError}
use whalemail.Queue.{Queue, fire}
use whalemail.Smtp.Crates.{Crates, Env}
use whalemail.Smtp.Session.{Progress, ended, waiting}
use whalemail.Smtp.Relay.{server_loop-queue}
use whalemail.Client.Network.{Network}
use whalemail.Client.Discovery.{ClientCrates, deliver_remote}
use whalemail.Process.Keeps.{accept_loop-Keeps}
use whalemail.Process.{
  Server, Arrival, env_of, Incoming, after_loop, process_socket_silent, accept_loop,
}

module _ {Session M HM Cert Key Store Acceptor : Type 0} (crates : Crates Session M)
    (sasl_laws : IsSasl crates.sasl) (map_laws : IsMultiMap crates.multimap)
    (client : ClientCrates HM Cert Key Store Acceptor) (config : Config) (db : UserDb)
    (nobody : (a : Authorized) (p : Text) → db.authenticate a p ≢ ok true) where
  -- nothing is queued and the network was not used since
  abbrev Quiet : Network → Server → Type 0
  Quiet net s = (s.queue ≡ record { entries = [] }) × (s.network ≡ net)

  fire-empty :
      (net : Network) (q : Queue)
      → q ≡ record { entries = [] }
      → fire (deliver_remote client config) q net ≡ (some [], q, net)
  unfolding fire pop_last
  fire-empty net q e =
      subst (λ p. fire (deliver_remote client config) p net ≡ (some [], p, net)) (sym e) refl

  after_loop-Quiet :
      (net : Network) (r : Outcome IoError (Progress Session) × Env)
      → r.1.queue ≡ record { entries = [] }
      → Quiet net (after_loop crates client config db net r).1
  after_loop-Quiet net (done ended, env) e =
      let f = fire-empty net env.queue e in (ap (λ r. r.1) f ∙ e, ap (λ r. r.2) f)
  after_loop-Quiet net (done (waiting s), env) e = (e, refl)
  after_loop-Quiet net (failed x, env) e = (e, refl)
  after_loop-Quiet net (panicked, env) e = (e, refl)

  process-Quiet :
      (a : Arrival) (s : Server)
      → s.queue ≡ record { entries = [] }
      → Quiet s.network (process_socket_silent crates client config db a s).1
  unfolding process_socket_silent
  process-Quiet a s e =
      after_loop-Quiet s.network _ (
        server_loop-queue crates sasl_laws map_laws config db nobody a.reads (env_of config a s)
        ∙ e)

  -- If the SASL library and the multimap keep their laws, the user database accepts no credentials
  -- and nothing is queued at first, then whatever clients come and whatever they send, the server
  -- never uses the network to deliver mail, and nothing is queued.
  pub accept_loop-network :
      (is : List Incoming) (s : Server)
      → s.queue ≡ record { entries = [] }
      → ((accept_loop crates client config db is s).1.queue ≡ record { entries = [] })
        × ((accept_loop crates client config db is s).1.network ≡ s.network)
  accept_loop-network is s e =
      accept_loop-Keeps crates client config db (Quiet s.network)
        (λ a s' q. let r = process-Quiet a s' q.0 in (r.0, r.1 ∙ q.1)) is s (e, refl)
