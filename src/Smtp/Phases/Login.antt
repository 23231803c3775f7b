-- ===== src/Smtp/Phases/Login.antt =====
-- The phases that AUTH leads to.
use whalemail.Prelude.{Option, none, some}
use whalemail.Prelude.Outcome.{Result, ok, err}
use whalemail.Prelude.Action.{Outcome, done, failed, panicked, Action}
use whalemail.Prelude.Keeps.{Keeps, Keeps-pure, Keeps-panic, Keeps-bind, Keeps-then}
use whalemail.Text.{Text}
use whalemail.Config.{Hostname}
use whalemail.User.{User}
use whalemail.UserDb.{UserDb}
use whalemail.Command.{CommandVerb}
use whalemail.Net.{IoError}
use whalemail.Auth.Session.{AuthError, invalid_mechanism, auth_unsuccessful}
use whalemail.Auth.{Auth, authorized_user}
use whalemail.Smtp.Crates.{Crates, Env}
use whalemail.Smtp.State.{EhloState, AuthState, AuthResult, unfinished}
use whalemail.Smtp.Login.{
  settle_auth, with_mech, started, finished, stepped, transition_auth_result,
}
use whalemail.Smtp.Invariant.Login.{flush-bind}
use whalemail.Smtp.Phases.{
  Phase, login, greeted, phase_of, login_begins, login_goes_on, login_ends, login_refused, Free,
  free, anything, Reaches, Leads,
}

module _ {Session : Type 0} (db : UserDb) (h : Hostname) where
  pub settle_auth-Next :
      {v : Option CommandVerb} {p : Phase} (m : Action IoError Env (AuthResult Session))
      → Keeps Free (λ r. Reaches v p (transition_auth_result r)) m
      → Leads v p (settle_auth m)
  unfolding settle_auth
  settle_auth-Next m k = Keeps-bind _ m _ k λ r v. Keeps-then _ _ (anything _) (Keeps-pure _ v)

  finished-Next :
      (a : AuthState Session) (r : Result (Unit {0}) (Option User))
      → Reaches (some CommandVerb.auth) greeted (transition_auth_result (finished a r))
  unfolding transition_auth_result phase_of
  finished-Next a (ok none) = login_refused
  finished-Next a (ok (some u)) = login_refused
  finished-Next a (err x) = login_begins

  started-Next :
      (e : EhloState) (o : Outcome AuthError (Auth Session))
      → Keeps Free
          (λ r. Reaches (some CommandVerb.auth) greeted (transition_auth_result r))
          (started e o)
  unfolding transition_auth_result phase_of
  started-Next e (failed invalid_mechanism) = Keeps-pure _ login_refused
  started-Next e (failed auth_unsuccessful) = Keeps-pure _ login_refused
  started-Next e panicked = Keeps-panic
  started-Next e (done a) =
      flush-bind free db h (λ _. Unit) _ (λ s. finished s (authorized_user s.auth))
        (finished-Next _ (authorized_user _))

  pub stepped-Next :
      {M : Type 0} {v : Option CommandVerb} (crates : Crates Session M) (e : EhloState)
      (r : Result AuthError (Option User) × Auth Session)
      → Keeps Free (λ r. Reaches v login (transition_auth_result r)) (stepped crates db h e r)
  unfolding transition_auth_result phase_of
  stepped-Next crates e (ok none, a) = flush-bind free db h (λ _. Unit) _ unfinished login_goes_on
  stepped-Next crates e (ok (some u), a) = Keeps-pure _ login_ends
  stepped-Next crates e (err x, a) = Keeps-pure _ login_ends

  pub with_mech-Next :
      {M : Type 0} (crates : Crates Session M) (e : EhloState)
      (c : Option (Option Text × Option Text))
      → Keeps Free
          (λ r. Reaches (some CommandVerb.auth) greeted (transition_auth_result r))
          (with_mech crates db h e c)
  unfolding transition_auth_result phase_of
  with_mech-Next crates e none = Keeps-pure _ login_refused
  with_mech-Next crates e (some (none, arg)) = Keeps-pure _ login_refused
  with_mech-Next crates e (some (some m, arg)) = started-Next e _
