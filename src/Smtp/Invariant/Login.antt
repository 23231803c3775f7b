-- ===== src/Smtp/Invariant/Login.antt =====
-- AUTH authorizes accepted users only.
use whalemail.Prelude.{false, ◌≡◌, refl, subst, Option, none, some, inl, inr, arith, Option-cases}
use whalemail.Prelude.Outcome.{Result, ok, err}
use whalemail.Prelude.Action.{Outcome, done, failed, panicked, Action, pure, ◌>>=◌}
use whalemail.Prelude.Keeps.{Returns, Keeps, Keeps-pure, Keeps-panic, Keeps-bind, Keeps-then}
use whalemail.Text.{Text, to_ascii_uppercase}
use whalemail.Config.{Hostname}
use whalemail.User.{User}
use whalemail.UserDb.{UserDb}
use whalemail.Command.{Command, msg_strip_lf}
use whalemail.Auth.Session.{AuthError, IsSasl, auth_unsuccessful, invalid_mechanism}
use whalemail.Auth.{Auth, authorized_user}
use whalemail.Auth.Accepted.{
  IsSound, IsValidAuth, Held, Stepped, auth_step-Stepped, new_auth-IsValidAuth,
}
use whalemail.Smtp.Crates.{Crates, Env}
use whalemail.Smtp.Login.{
  respond_auth, transition_auth_result, flush_buf, auth_flush, finished, started, init_sasl,
  with_mech, stepped, handle_auth_step, settle_auth,
}
use whalemail.Smtp.State.{
  EhloState, AuthState, AuthResult, unfinished, authorized, bad_mechanism, bad_credentials,
}
use whalemail.Smtp.Invariant.{IsAccepted, IsAuthorized, IsValid, SocketFree}
use whalemail.Smtp.Invariant.Rcpt.{Keeps-send}

module _ {I : Env → Type 0} (free : SocketFree I) {Session : Type 0} where
  module _ (db : UserDb) (h : Hostname) (Holds : Session → Type 0) where
    abbrev pub IsValidResult : AuthResult Session → Type 0
    IsValidResult (unfinished a) =
        IsAuthorized db a.from_state.authorized
        × Holds a.auth.session
        × IsSound db a.auth.authorized
    IsValidResult (authorized e u) = IsAccepted db u
    IsValidResult (bad_mechanism e) = IsAuthorized db e.authorized
    IsValidResult (bad_credentials e) = IsAuthorized db e.authorized

    respond_auth-Keeps : (r : AuthResult Session) → Keeps I (λ _. Unit) (respond_auth r)
    unfolding respond_auth
    respond_auth-Keeps (unfinished a) = Keeps-pure _ tt
    respond_auth-Keeps (authorized e u) = Keeps-send free _
    respond_auth-Keeps (bad_mechanism e) = Keeps-send free _
    respond_auth-Keeps (bad_credentials e) = Keeps-send free _

    transition-IsValid :
        (r : AuthResult Session) → IsValidResult r → IsValid db h Holds (transition_auth_result r)
    unfolding transition_auth_result
    transition-IsValid (unfinished a) v = v
    transition-IsValid (authorized e u) v = v
    transition-IsValid (bad_mechanism e) v = v
    transition-IsValid (bad_credentials e) v = v

    -- A valid result leads to a valid state.
    pub settle_auth-IsValid :
        (m : Action _ Env (AuthResult Session))
        → Keeps I IsValidResult m
        → Keeps I (IsValid db h Holds) (settle_auth m)
    unfolding settle_auth
    settle_auth-IsValid m k =
        Keeps-bind IsValidResult m _ k
          λ r v. Keeps-then _ _ (respond_auth-Keeps r) (Keeps-pure _ (transition-IsValid r v))

    flush_buf-Keeps : (b : Option Text) → Keeps I (λ _. Unit) (flush_buf b)
    flush_buf-Keeps none = Keeps-pure _ tt
    flush_buf-Keeps (some b) = Keeps-send free _

    -- flushing leaves all but the buffer
    pub flush-bind :
        {P : AuthResult Session → Type 0} (a : AuthState Session)
        (f : AuthState Session → AuthResult Session)
        → P (f (record a { auth = record a.auth { write_buf = none } }))
        → Keeps I P (auth_flush a >>= λ s. pure (f s))
    flush-bind {P} a f p =
        Keeps-bind (λ s. P (f s)) (auth_flush a) _ flushed (λ s q. Keeps-pure _ q)
      where
        flushed : Keeps I (λ s. P (f s)) (auth_flush a)
        flushed =
            unfold auth_flush in
            Keeps-then (flush_buf a.auth.write_buf) _ (flush_buf-Keeps a.auth.write_buf)
              (Keeps-pure _ p)

    unfinished_lem : (a : Auth Session) → authorized_user a ≡ err tt → a.is_finished ≡ false
    unfolding authorized_user
    unfinished_lem a e = ground arith

    authorized_user-IsAccepted :
        (a : Auth Session)
        → IsValidAuth db Holds a
        → (u : User) → authorized_user a ≡ ok (some u)
        → IsAccepted db u
    unfolding authorized_user
    authorized_user-IsAccepted a v u e = elim (Option-cases a.authorized) [
      | inl n ↦ ground arith
      | inr (x, p) ↦ (x, ground arith, subst (IsSound db) p v.sound)
    ]

    finished-IsValidResult :
        (a : AuthState Session)
        → IsAuthorized db a.from_state.authorized
        → IsValidAuth db Holds a.auth
        → IsValidResult (finished a (authorized_user a.auth))
    finished-IsValidResult a i v =
        by_result (authorized_user a.auth) (λ e. v.holds (unfinished_lem a.auth e))
          (authorized_user-IsAccepted a.auth v)
      where
        by_result :
            (r : Result (Unit {0}) (Option User))
            → (r ≡ err tt → Holds a.auth.session)
            → ((u : User) → r ≡ ok (some u) → IsAccepted db u)
            → IsValidResult (finished a r)
        by_result (err tt) holds accepted = (i, holds refl, v.sound)
        by_result (ok none) holds accepted = i
        by_result (ok (some u)) holds accepted = accepted u refl

    started-IsValidResult :
        (e : EhloState) (o : Outcome AuthError (Auth Session))
        → IsAuthorized db e.authorized
        → Returns (IsValidAuth db Holds) o
        → Keeps I IsValidResult (started e o)
    started-IsValidResult e (failed invalid_mechanism) i v = Keeps-pure _ i
    started-IsValidResult e (failed auth_unsuccessful) i v = Keeps-pure _ i
    started-IsValidResult e panicked i v = Keeps-panic
    started-IsValidResult e (done a) i v =
        flush-bind _ (λ s. finished s (authorized_user s.auth))
          (finished-IsValidResult _ i (record { holds = v.holds; sound = v.sound }))

  module _ {M : Type 0} (crates : Crates Session M) (laws : IsSasl crates.sasl) (db : UserDb)
      (h : Hostname) where
    with_mech-IsValidResult :
        (e : EhloState) (c : Option (Option Text × Option Text))
        → IsAuthorized db e.authorized
        → Keeps I (IsValidResult db h (Held crates.sasl laws db h)) (with_mech crates db h e c)
    with_mech-IsValidResult e none i = Keeps-pure _ i
    with_mech-IsValidResult e (some (none, arg)) i = Keeps-pure _ i
    with_mech-IsValidResult e (some (some mech, arg)) i =
        started-IsValidResult db h (Held crates.sasl laws db h) e _ i (
          new_auth-IsValidAuth crates.sasl laws db h crates.plain_auth_msg crates.base64_decode
            (to_ascii_uppercase mech) arg)

    -- AUTH leads to a valid state.
    pub init_sasl-IsValid :
        (cmd : Command) (e : EhloState)
        → IsAuthorized db e.authorized
        → Keeps I
            (IsValid db h (Held crates.sasl laws db h))
            (settle_auth (init_sasl crates db h cmd e))
    init_sasl-IsValid cmd e i =
        settle_auth-IsValid db h (Held crates.sasl laws db h) _
          (unfold init_sasl in with_mech-IsValidResult e _ i)

    stepped-IsValidResult :
        (e : EhloState) (r : Result AuthError (Option User) × Auth Session)
        → IsAuthorized db e.authorized
        → Stepped crates.sasl laws db h r
        → Keeps I (IsValidResult db h (Held crates.sasl laws db h)) (stepped crates db h e r)
    stepped-IsValidResult e (ok none, a) i v =
        flush-bind db h (Held crates.sasl laws db h) _ unfinished (i, v.0, v.1)
    stepped-IsValidResult e (ok (some u), a) i v = Keeps-pure _ (v.0, v.1, v.4)
    stepped-IsValidResult e (err x, a) i v = Keeps-pure _ i

    -- A step of the authentication leads to a valid state.
    pub auth_step-IsValid :
        (cmd : Command) (a : AuthState Session)
        → IsAuthorized db a.from_state.authorized
        → Held crates.sasl laws db h a.auth.session
        → IsSound db a.auth.authorized
        → Keeps I
            (IsValid db h (Held crates.sasl laws db h))
            (settle_auth (handle_auth_step crates db h cmd a))
    auth_step-IsValid cmd a i held sound = settle_auth-IsValid db h (Held crates.sasl laws db h) _ (
        unfold handle_auth_step in
        stepped-IsValidResult a.from_state _ i
          (auth_step-Stepped crates.sasl laws db h a.auth (some (msg_strip_lf cmd)) held sound))
