-- ===== src/Process/Sorted.antt =====
-- That the queue only ever holds mail that the client can deliver, and that delivering it does not
-- panic.
use whalemail.Prelude.{
  ◌≢◌, refl, Option, none, some, List, [], ◌∷◌, ◌++◌, All, pop_last, inl, inr, Option-cases,
}
use whalemail.Prelude.Action.{Outcome, done, failed, panicked}
use whalemail.Config.{Config}
use whalemail.UserDb.{UserDb}
use whalemail.Envelope.{MailAddress, Envelope}
use whalemail.MultiMap.{IsMultiMap}
use whalemail.Auth.Session.{IsSasl}
use whalemail.Net.{IoError}
use whalemail.Queue.{Queue, collect, deliver_groups, fire}
use whalemail.Queue.Sorted.{IsGroup, IsSorted, popped}
use whalemail.Smtp.Crates.{Crates, Env}
use whalemail.Smtp.State.{SmtpState, data'}
use whalemail.Smtp.Outgoing.Sorted.{deliver_mail-IsSorted}
use whalemail.Smtp.Session.{Reads, server_loop, Progress, ended, waiting}
use whalemail.Smtp.Relay.{DeliversIn, server_loop-Keeps}
use whalemail.Client.Errors.{RemoteDeliveryError}
use whalemail.Client.Network.{Network}
use whalemail.Client.Hosts.{IsHostMap}
use whalemail.Client.Lookup.{IsShuffle}
use whalemail.Client.Discovery.{ClientCrates, deliver_remote}
use whalemail.Client.Safe.{HasTls, HasNames, Fine, deliver_remote-Safe}
use whalemail.Process.Keeps.{accept_loop-Keeps}
use whalemail.Process.{
  Server, Arrival, env_of, Incoming, after_loop, process_socket_silent, accept_loop,
}

fire-IsSorted :
    {W E : Type 0} (deliver : Envelope → List MailAddress → W → Outcome E (Unit {0}) × W)
    (q : Queue) (w : W)
    → IsSorted q
    → IsSorted (fire deliver q w).1
unfolding fire
fire-IsSorted deliver q w h = elim (Option-cases (pop_last q.entries)) [
  | inl n ↦ rw (n, fire) h
  | inr ((entry, rest), e) ↦ rw (e, fire) (popped q entry rest h e).1
]

module _ {Session M HM Cert Key Store Acceptor : Type 0} (crates : Crates Session M)
    (sasl_laws : IsSasl crates.sasl) (map_laws : IsMultiMap crates.multimap)
    (client : ClientCrates HM Cert Key Store Acceptor) (config : Config) (db : UserDb) where
  abbrev EnvIsSorted : Env → Type 0
  EnvIsSorted env = IsSorted env.queue

  delivers : (s : SmtpState Session) → DeliversIn crates db EnvIsSorted s
  delivers (data' d) = λ body env h. deliver_mail-IsSorted crates db map_laws _ _ h
  delivers _ = tt

  pub server_loop-IsSorted :
      (reads : Reads crates config db) (env : Env)
      → IsSorted env.queue
      → IsSorted (server_loop crates config db reads env).1.queue
  server_loop-IsSorted reads env h =
      ((server_loop-Keeps crates sasl_laws config db {I = EnvIsSorted} (λ _ _ i. i)
          (λ t v. delivers t) reads).at
        env h).0

  after_loop-IsSorted :
      (net : Network) (r : Outcome IoError (Progress Session) × Env)
      → IsSorted r.1.queue
      → IsSorted (after_loop crates client config db net r).1.queue
  after_loop-IsSorted net (done ended, env) h = fire-IsSorted _ env.queue net h
  after_loop-IsSorted net (done (waiting s), env) h = h
  after_loop-IsSorted net (failed x, env) h = h
  after_loop-IsSorted net (panicked, env) h = h

  pub process-IsSorted :
      (a : Arrival) (s : Server)
      → IsSorted s.queue
      → IsSorted (process_socket_silent crates client config db a s).1.queue
  unfolding process_socket_silent
  process-IsSorted a s h =
      after_loop-IsSorted s.network _ (server_loop-IsSorted a.reads (env_of config a s) h)

  -- If the SASL library and the multimap keep their laws, then whatever clients come and whatever they
  -- send, each group of recipients that is queued has at least one recipient, and all of its recipients
  -- are at one remote domain, provided that this holds at first.
  pub accept_loop-IsSorted :
      (is : List Incoming) (s : Server)
      → IsSorted s.queue
      → IsSorted (accept_loop crates client config db is s).1.queue
  accept_loop-IsSorted =
      accept_loop-Keeps crates client config db (λ s. IsSorted s.queue) process-IsSorted

module _ {HM Cert Key Store Acceptor : Type 0} (client : ClientCrates HM Cert Key Store Acceptor)
    (config : Config) (has_tls : HasTls client config) (laws : IsHostMap client.hosts)
    (shuffled : IsShuffle client.shuffle) where
  -- the deliveries did not panic, and the name server's answers are as they were
  abbrev pub Fires : {A : Type 0} → Option A × Network → Type 0
  Fires r = (r.0 ≢ none) × HasNames client config r.1

  deliver_groups-Fires :
      (e : Envelope) (gs : List (List MailAddress)) (errors : List RemoteDeliveryError)
      (w : Network)
      → All IsGroup gs
      → HasNames client config w
      → Fires (deliver_groups (deliver_remote client config) e gs errors w)
  unfolding deliver_groups
  deliver_groups-Fires e [] errors w h i = (λ n. cc, i)
  deliver_groups-Fires e (g ∷ gs) errors w h i =
      attempted (deliver_remote client config e g w)
        (deliver_remote-Safe client config has_tls laws shuffled e g w h.0.0 i)
        (λ es w'. deliver_groups-Fires e gs es w' h.1)
    where
      attempted :
          (r : Outcome RemoteDeliveryError (Unit {0}) × Network)
          → Fine client config r
          → ((es : List RemoteDeliveryError) (w' : Network)
              → HasNames client config w'
              → Fires (deliver_groups (deliver_remote client config) e gs es w'))
          → Fires
              (elim (collect (deliver_remote client config) errors r.0)
                as (λ _. Option (List RemoteDeliveryError) × Network) [
                  | none ↦ (none, r.1)
                  | some es ↦ deliver_groups (deliver_remote client config) e gs es r.1
                ])
      attempted (done u, w') (n, i) rest = rest errors w' i
      attempted (failed x, w') (n, i) rest = rest (errors ++ x ∷ []) w' i
      attempted (panicked, w') (n, i) rest = absurd (n refl)

  pub fire-Fires :
      (q : Queue) (w : Network)
      → IsSorted q
      → HasNames client config w
      → let r = fire (deliver_remote client config) q w in Fires (r.0, r.2)
  unfolding fire
  fire-Fires q w h i = elim (Option-cases (pop_last q.entries)) [
    | inl n ↦ rw (n, fire) (λ m. cc, i)
    | inr ((entry, rest), e) ↦
        rw (e, fire)
          (deliver_groups-Fires entry.envelope entry.rcpt_groups [] w (popped q entry rest h e).0 i)
  ]

  -- If the TLS connector can be built, the hosts that the name server answers with have valid names,
  -- the multimap of hosts keeps its laws, the random generator shuffles and the queue's groups each
  -- have a recipient and are for one remote domain, then firing the queue over the network does not
  -- panic, whatever else the network answers.
  pub fire-remote :
      (q : Queue) (w : Network)
      → IsSorted q
      → HasNames client config w
      → (fire (deliver_remote client config) q w).0 ≢ none
  fire-remote q w h i = (fire-Fires q w h i).0
