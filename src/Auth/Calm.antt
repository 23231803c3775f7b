-- ===== src/Auth/Calm.antt =====
-- When `Auth::new` does not panic.
use whalemail.Prelude.{◌≡◌, ◌≢◌, refl, Option, none, some, List}
use whalemail.Prelude.Outcome.{Result, ok, err}
use whalemail.Prelude.Action.{panicked}
use whalemail.Text.{Text}
use whalemail.Config.{Hostname}
use whalemail.User.{User}
use whalemail.UserDb.{UserDb}
use whalemail.Auth.{
  Auth, AuthMech, plain, login, validate, keep_auth, not_error, initial_step, begin, mech_from,
  start, new_auth,
}
use whalemail.Auth.Session.{
  AuthError, Validate, Step, running, finished_sent, finished_unsent, step_error, Sasl,
}

-- The first step of a session, which only prompts, is no error.
abbrev pub Prompts : {Session : Type 0} → Sasl Session → Type 0
Prompts {Session} sasl =
    (v : Validate) (name : Text) (s : Session)
    → sasl.start_suggested name ≡ some s
    → (sasl.step64 v s none).0 ≢ step_error

module _ {Session : Type 0} (sasl : Sasl Session) (db : UserDb) (hostname : Hostname)
    (plain_auth_msg : Text → _) (base64_decode : Text → Option (List _))
    (prompts : Prompts sasl) where
  keep_auth-Calm :
      (r : Result AuthError (Option User) × Auth Session)
      → keep_auth sasl db hostname plain_auth_msg base64_decode r ≢ panicked
  keep_auth-Calm (err e, a) h = cc
  keep_auth-Calm (ok u, a) h = cc

  not_error-Calm :
      (a : Auth Session) (r : Step × List Text × Session)
      → r.0 ≢ step_error
      → not_error sasl db hostname plain_auth_msg base64_decode a r ≢ panicked
  not_error-Calm a (step_error, ws, s) n h = n refl
  not_error-Calm a (running, ws, s) n h = cc
  not_error-Calm a (finished_sent, ws, s) n h = cc
  not_error-Calm a (finished_unsent, ws, s) n h = cc

  initial_step-Calm :
      (a : Auth Session) (m : AuthMech) (arg : Option Text)
      → (sasl.step64 (validate db hostname) a.session none).0 ≢ step_error
      → initial_step sasl db hostname plain_auth_msg base64_decode a m arg ≢ panicked
  unfolding initial_step
  initial_step-Calm a plain none n h = cc
  initial_step-Calm a plain (some arg) n h = keep_auth-Calm _ h
  initial_step-Calm a login arg n h = not_error-Calm a _ n h

  begin-Calm :
      (s : Session) (arg : Option Text) (m : Result AuthError AuthMech)
      → (sasl.step64 (validate db hostname) s none).0 ≢ step_error
      → begin sasl db hostname plain_auth_msg base64_decode s arg m ≢ panicked
  begin-Calm s arg (err e) n h = cc
  begin-Calm s arg (ok m) n h = initial_step-Calm _ m arg n h

  start-Calm :
      (name : Option Text) (arg : Option Text)
      → start sasl db hostname plain_auth_msg base64_decode name arg ≢ panicked
  start-Calm none arg h = cc
  start-Calm (some name) arg h = session (sasl.start_suggested name) refl h
    where
      session :
          (o : Option Session)
          → sasl.start_suggested name ≡ o
          → start sasl db hostname plain_auth_msg base64_decode (some name) arg ≢ panicked
      session none e = rw (e, start) (λ h. cc)
      session (some s) e = rw (e, start) (begin-Calm s arg (mech_from name) (prompts _ name s e))

  pub new_auth-Calm :
      (selected : Text) (arg : Option Text)
      → new_auth sasl db hostname plain_auth_msg base64_decode selected arg ≢ panicked
  unfolding new_auth
  new_auth-Calm selected arg = start-Calm (sasl.parse_mechname selected) arg
