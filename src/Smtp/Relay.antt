-- ===== src/Smtp/Relay.antt =====
-- What clients can and cannot do with the server.
use whalemail.Prelude.{true, ◌≡◌, ◌≢◌, refl, Option, none, some, [], ◌∷◌}
use whalemail.Prelude.Outcome.{ok, err}
use whalemail.Prelude.Action.{Outcome, done, failed, panicked, Action}
use whalemail.Prelude.Keeps.{Returns, Keeps, Keeps-pure, Keeps-fail, Keeps-bind}
use whalemail.Text.{Text}
use whalemail.Config.{Config}
use whalemail.User.{User, Authorized}
use whalemail.UserDb.{UserDb}
use whalemail.Command.{Command, CommandVerb, new_command}
use whalemail.MultiMap.{IsMultiMap}
use whalemail.Queue.{Queue}
use whalemail.Net.{IoError}
use whalemail.Smtp.Session.{Progress, Reads, proceed, socket_loop, server_loop}
use whalemail.Smtp.Outgoing.{Delivers-unauthorized}
use whalemail.Auth.Session.{IsSasl}
use whalemail.Auth.Accepted.{Held}
use whalemail.Smtp.Crates.{Crates, Env}
use whalemail.Smtp.Handle.{kind_of, greet, dispatch, with_command, handle, quit_complete, ignore}
use whalemail.Smtp.State.{
  SmtpState, init, helo, ehlo, auth, mail, rcpt, data', datacomplete, quit, StateKind, continue',
  quit',
}
use whalemail.Smtp.Invariant.{IsAuthorized, IsValid, SocketFree}
use whalemail.Smtp.Invariant.Rcpt.{
  Keeps-send, Keeps-send-then, first_rcpt-IsValid, next_rcpt-IsValid,
}
use whalemail.Smtp.Invariant.Mail.{mail_from_ehlo-IsValid, mail_from_helo-IsValid}
use whalemail.Smtp.Invariant.Login.{init_sasl-IsValid, auth_step-IsValid}
use whalemail.Smtp.Invariant.Receive.{Delivers, start_data-IsValid, receive_data-IsValid}

abbrev pub DeliversIn :
    {Session M : Type 0} → Crates Session M → UserDb → (Env → Type 0) → SmtpState Session → Type 0
DeliversIn crates db I (data' d) = Delivers crates db I d
DeliversIn crates db I _ = Unit

module _ {Session M : Type 0} (crates : Crates Session M) (laws : IsSasl crates.sasl)
    (config : Config) (db : UserDb) where
  abbrev pub IsValidState : SmtpState Session → Type 0
  IsValidState = IsValid db config.hostname (Held crates.sasl laws db config.hostname)

  module _ {I : Env → Type 0} (free : SocketFree I) where
    abbrev Reaches : SmtpState Session → Option CommandVerb → Command → Type 0
    Reaches s verb cmd = Keeps I IsValidState (dispatch crates config db s verb cmd)

    quit_complete-Keeps : Keeps I IsValidState (quit_complete {Session = Session})
    unfolding quit_complete
    quit_complete-Keeps = record { at = λ env i. ignored _ ((Keeps-send free _).at env i).0 }
      where
        ignored :
            (r : Outcome _ (Unit {0}) × Env)
            → I r.1
            → I (ignore {A = SmtpState Session} quit r).1
              × Returns IsValidState (ignore {A = SmtpState Session} quit r).0
        ignored (done u, env) i = (i, tt)
        ignored (failed e, env) i = (i, tt)
        ignored (panicked, env) i = (i, tt)

    dispatch-IsValid :
        (s : SmtpState Session) (verb : Option CommandVerb) (cmd : Command)
        → IsValidState s
        → DeliversIn crates db I s
        → Reaches s verb cmd
    unfolding dispatch
    dispatch-IsValid init (some CommandVerb.helo) cmd v dl = Keeps-send-then free _ _ tt
    dispatch-IsValid (ehlo e) (some CommandVerb.auth) cmd v dl =
        init_sasl-IsValid free crates laws db config.hostname cmd e v
    dispatch-IsValid (auth a) verb cmd v dl =
        auth_step-IsValid free crates laws db config.hostname cmd a v.0 v.1 v.2
    dispatch-IsValid helo (some CommandVerb.mail) cmd v dl =
        mail_from_helo-IsValid free db config.hostname _ crates.mail_captures cmd
    dispatch-IsValid (ehlo e) (some CommandVerb.mail) cmd v dl =
        mail_from_ehlo-IsValid free db config.hostname _ crates.mail_captures cmd e v
    dispatch-IsValid (mail m) (some CommandVerb.rcpt) cmd v dl =
        first_rcpt-IsValid free db config.hostname _ crates.rcpt_captures cmd m v
    dispatch-IsValid (rcpt r) (some CommandVerb.rcpt) cmd v dl =
        next_rcpt-IsValid free db config.hostname _ crates.rcpt_captures cmd r v.0 v.1
    dispatch-IsValid (rcpt r) (some CommandVerb.data') cmd v dl =
        start_data-IsValid free db config.hostname _ r v.0 v.1
    dispatch-IsValid (data' d) verb cmd v dl =
        receive_data-IsValid free db config.hostname _ crates cmd d v dl
    dispatch-IsValid datacomplete (some CommandVerb.quit) cmd v dl = quit_complete-Keeps
    dispatch-IsValid s (some verb) cmd v dl = Keeps-send-then free _ _ tt
    dispatch-IsValid s none cmd v dl = Keeps-send-then free _ _ tt

    pub handle-Keeps :
        (s : SmtpState Session) (input : Text)
        → IsValidState s
        → DeliversIn crates db I s
        → Keeps I IsValidState (handle crates config db s input)
    unfolding handle
    handle-Keeps s input v dl = with (new_command input)
      where
        with : (c : Option Command) → Keeps I IsValidState (with_command crates config db s c)
        with none = record { at = λ env i. (i, tt) }
        with (some cmd) = record { at = (dispatch-IsValid s cmd.verb cmd v dl).at }

-- the authorization that a state carries
unfoldable pub authorized_of : {Session : Type 0} → SmtpState Session → Option User
authorized_of (ehlo e) = e.authorized
authorized_of (auth a) = a.from_state.authorized
authorized_of (mail m) = m.authorized
authorized_of (rcpt r) = r.authorized
authorized_of (data' d) = d.authorized
authorized_of _ = none

abbrev SameQueue : Queue → Env → Type 0
SameQueue q env = env.queue ≡ q

module _ {Session M : Type 0} (crates : Crates Session M) (sasl_laws : IsSasl crates.sasl)
    (config : Config) (db : UserDb) where
  -- With a SASL library that keeps its laws, whatever message is handled in a valid state, if a
  -- state is returned it is valid: it holds an authorized user only if the user database accepted
  -- that user's credentials, an authorized client sends from a local mailbox only if it is its own,
  -- and each recipient is one that the client may send to.
  pub handle-IsValid :
      (s : SmtpState Session) (input : Text) (env : Env)
      → IsValidState crates sasl_laws config db s
      → Returns (IsValidState crates sasl_laws config db) (handle crates config db s input env).0
  handle-IsValid s input env v =
      ((handle-Keeps crates sasl_laws config db {I = λ _. Unit} (λ _ _ _. tt) s input v
          (delivers s)).at
        env tt).1
    where
      delivers : (s : SmtpState Session) → DeliversIn crates db (λ _. Unit) s
      delivers (data' d) = λ _ _ _. tt
      delivers _ = tt

-- what every delivery from a valid state keeps, a whole connection keeps
module _ {Session M : Type 0} (crates : Crates Session M) (sasl_laws : IsSasl crates.sasl)
    (config : Config) (db : UserDb) {I : Env → Type 0} (free : SocketFree I)
    (delivers : (s : SmtpState Session)
      → IsValidState crates sasl_laws config db s
      → DeliversIn crates db I s) where
  proceed-Keeps :
      (again : SmtpState Session → Action IoError Env (Progress Session)) (s : SmtpState Session)
      (k : StateKind)
      → kind_of s ≡ k
      → Keeps I (λ _. Unit) (again s)
      → Keeps I (λ _. Unit) (proceed crates config db again s)
  proceed-Keeps again s continue' e h = rw (e, proceed) h
  proceed-Keeps again s quit' e h = rw (e, proceed) (Keeps-pure _ tt)

  socket_loop-Keeps :
      (s : SmtpState Session) (reads : Reads crates config db)
      → IsValidState crates sasl_laws config db s
      → Keeps I (λ _. Unit) (socket_loop crates config db s reads)
  unfolding socket_loop
  socket_loop-Keeps s [] v = Keeps-pure _ tt
  socket_loop-Keeps s (err e ∷ reads) v = Keeps-fail e
  socket_loop-Keeps s (ok [] ∷ reads) v = Keeps-pure _ tt
  socket_loop-Keeps s (ok (b ∷ bytes) ∷ reads) v =
      Keeps-bind (IsValidState crates sasl_laws config db) _ _
        (handle-Keeps crates sasl_laws config db free s _ v (delivers s v))
        λ s' v'.
          proceed-Keeps (λ t. socket_loop crates config db t reads) s' (kind_of s') refl
            (socket_loop-Keeps s' reads v')

  pub server_loop-Keeps :
      (reads : Reads crates config db) → Keeps I (λ _. Unit) (server_loop crates config db reads)
  unfolding server_loop greet
  server_loop-Keeps reads =
      Keeps-bind (IsValidState crates sasl_laws config db) _ _ (Keeps-send-then free _ _ tt)
        λ s v. socket_loop-Keeps s reads v

module _ {Session M : Type 0} (crates : Crates Session M) (sasl_laws : IsSasl crates.sasl)
    (map_laws : IsMultiMap crates.multimap) (config : Config) (db : UserDb) where
  DeliversIn-unauthorized :
      (q : Queue) (s : SmtpState Session)
      → IsValidState crates sasl_laws config db s
      → authorized_of s ≡ none
      → DeliversIn crates db (SameQueue q) s
  unfolding authorized_of
  DeliversIn-unauthorized q (data' d) v n =
      Delivers-unauthorized crates db map_laws {I = SameQueue q} (λ _ _ i. i) (λ _ _ i. i)
        config.hostname d v n
  DeliversIn-unauthorized q _ v n = tt

  -- If the SASL library and the multimap keep their laws and the state is valid and carries no
  -- authorization, no message changes the outgoing queue, whether it is done, fails or panics.
  pub handle-queue_unauthorized :
      (s : SmtpState Session) (input : Text) (env : Env)
      → IsValidState crates sasl_laws config db s
      → authorized_of s ≡ none
      → (handle crates config db s input env).1.queue ≡ env.queue
  handle-queue_unauthorized s input env v n =
      ((handle-Keeps crates sasl_laws config db {I = SameQueue env.queue} (λ _ _ i. i) s input v
          (DeliversIn-unauthorized env.queue s v n)).at
        env refl).0

  module _ (nobody : (a : Authorized) (p : Text) → db.authenticate a p ≢ ok true) where
    none_of : (o : Option User) → IsAuthorized db o → o ≡ none
    none_of none v = refl
    none_of (some u) v = absurd (nobody v.0 v.2.0 v.2.1)

    authorized_of-none :
        (s : SmtpState Session) → IsValidState crates sasl_laws config db s → authorized_of s ≡ none
    unfolding authorized_of
    authorized_of-none (ehlo e) v = none_of e.authorized v
    authorized_of-none (auth a) v = none_of a.from_state.authorized v.0
    authorized_of-none (mail m) v = none_of m.authorized v.is_authorized
    authorized_of-none (rcpt r) v = none_of r.authorized v.0.is_authorized
    authorized_of-none (data' d) v = none_of d.authorized v.is_authorized
    authorized_of-none _ v = refl

    -- If the SASL library and the multimap keep their laws and the user database accepts no
    -- credentials, a whole connection leaves the outgoing queue as it
    -- was, whatever the client sends and whatever the environment answers.
    pub server_loop-queue :
        (reads : Reads crates config db) (env : Env)
        → (server_loop crates config db reads env).1.queue ≡ env.queue
    server_loop-queue reads env = (kept.at env refl).0
      where
        kept : Keeps (SameQueue env.queue) (λ _. Unit) (server_loop crates config db reads)
        kept =
            server_loop-Keeps crates sasl_laws config db (λ _ _ i. i)
              (λ s v. DeliversIn-unauthorized env.queue s v (authorized_of-none s v)) reads
