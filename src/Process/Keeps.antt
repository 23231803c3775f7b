-- ===== src/Process/Keeps.antt =====
-- What every connection keeps, the loop over the connections keeps.
use whalemail.Prelude.{List, [], ◌∷◌}
use whalemail.Prelude.Outcome.{ok, err}
use whalemail.Config.{Config}
use whalemail.UserDb.{UserDb}
use whalemail.Smtp.Crates.{Crates}
use whalemail.Client.Discovery.{ClientCrates}
use whalemail.Process.{
  Server, Arrival, Served, closed, still_open, crashed, Incoming, plain, tls, process_socket_silent,
  incoming, then_accept, accept_loop,
}

module _ {Session M HM Cert Key Store Acceptor : Type 0} (crates : Crates Session M)
    (client : ClientCrates HM Cert Key Store Acceptor) (config : Config) (db : UserDb)
    (J : Server → Type 0)
    (kept : (a : Arrival) (s : Server)
      → J s
      → J (process_socket_silent crates client config db a s).1) where
  incoming-Keeps : (i : Incoming) (s : Server) → J s → J (incoming crates client config db i s).1
  incoming-Keeps (plain (ok a)) s h = kept a s h
  incoming-Keeps (plain (err x)) s h = h
  incoming-Keeps (tls (ok (ok a))) s h = kept a s h
  incoming-Keeps (tls (ok (err x))) s h = h
  incoming-Keeps (tls (err x)) s h = h

  pub accept_loop-Keeps :
      (is : List Incoming) (s : Server) → J s → J (accept_loop crates client config db is s).1
  unfolding accept_loop
  accept_loop-Keeps [] s h = h
  accept_loop-Keeps (i ∷ is) s h =
      next (incoming crates client config db i s) (incoming-Keeps i s h)
        λ s' h'. accept_loop-Keeps is s' h'
    where
      next :
          (r : Served × Server)
          → J r.1
          → ((s' : Server) → J s' → J (accept_loop crates client config db is s').1)
          → J
              (then_accept crates client config db r
                (λ s'. accept_loop crates client config db is s')).1
      next (closed, s') h rest = rest s' h
      next (still_open, s') h rest = h
      next (crashed, s') h rest = h
