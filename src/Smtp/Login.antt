-- ===== src/Smtp/Login.antt =====
-- `AuthResult` and `AuthState`: AUTH and the steps behind it.
use whalemail.Prelude.{Option, none, some, ◌++◌}
use whalemail.Prelude.Outcome.{Result, ok, err}
use whalemail.Prelude.Action.{Outcome, done, failed, panicked, Action, pure, panic, ◌>>=◌, ◌>>◌}
use whalemail.Text.{Text, codes, crlf, to_ascii_uppercase}
use whalemail.Config.{Hostname}
use whalemail.User.{User}
use whalemail.UserDb.{UserDb}
use whalemail.Net.{IoError}
use whalemail.Command.{Command, msg_strip_lf}
use whalemail.Auth.Session.{AuthError, invalid_mechanism, auth_unsuccessful}
use whalemail.Auth.{Auth, auth_step, new_auth, authorized_user}
use whalemail.Smtp.Crates.{Crates, Env, send}
use whalemail.Smtp.State.{
  SmtpState, ehlo, auth, EhloState, AuthState, AuthResult, unfinished, authorized, bad_mechanism,
  bad_credentials,
}

abbrev pub flush_buf : Option Text → Action IoError Env (Unit {0})
flush_buf none = pure tt
flush_buf (some buf) = send (codes "334 " ++ (buf ++ crlf))

-- `EhloState::push_authorized`
abbrev pub push_authorized : User → EhloState → EhloState
push_authorized user e = record e { authorized = some user }

module _ {Session : Type 0} where
  -- `AuthResult::respond`
  unfoldable pub respond_auth : AuthResult Session → Action IoError Env (Unit {0})
  respond_auth (unfinished a) = pure tt
  respond_auth (authorized e u) = send (codes "235 2.7.0 Authentication successful\r\n")
  respond_auth (bad_mechanism e) = send (codes "535 5.7.8 Invalid authentication mechanism\r\n")
  respond_auth (bad_credentials e) = send (codes "535 5.7.8 Unauthorized\r\n")

  -- `SmtpServer::transition_auth_result`
  unfoldable pub transition_auth_result : AuthResult Session → SmtpState Session
  transition_auth_result (unfinished a) = auth a
  transition_auth_result (authorized e u) = ehlo (push_authorized u e)
  transition_auth_result (bad_mechanism e) = ehlo e
  transition_auth_result (bad_credentials e) = ehlo e

  -- `AuthState::auth_flush`, `Auth::flush` and `Writer::flush_to_connwriter`: the buffer is taken
  unfoldable pub auth_flush : AuthState Session → Action IoError Env (AuthState Session)
  auth_flush a = do
    flush_buf a.auth.write_buf
    pure (record a { auth = record a.auth { write_buf = none } })

  abbrev pub finished : AuthState Session → Result (Unit {0}) (Option User) → AuthResult Session
  finished a (ok (some u)) = authorized a.from_state u
  finished a (ok none) = bad_credentials a.from_state
  finished a (err e) = unfinished a

  abbrev pub started :
      EhloState → Outcome AuthError (Auth Session) → Action IoError Env (AuthResult Session)
  started e (failed invalid_mechanism) = pure (bad_mechanism e)
  started e (failed auth_unsuccessful) = pure (bad_credentials e)
  started e panicked = panic
  started e (done a) = do
    s ← auth_flush (record { auth = a; from_state = e })
    pure (finished s (authorized_user s.auth))

  -- what both arms of `handle` do with a result
  unfoldable pub settle_auth :
      Action IoError Env (AuthResult Session) → Action IoError Env (SmtpState Session)
  settle_auth m = do r ← m; respond_auth r; pure (transition_auth_result r)

module _ {Session M : Type 0} (crates : Crates Session M) (db : UserDb) (hostname : Hostname) where
  abbrev pub with_mech :
      EhloState → Option (Option Text × Option Text) → Action IoError Env (AuthResult Session)
  with_mech e none = pure (bad_mechanism e)
  with_mech e (some (none, arg)) = pure (bad_mechanism e)
  with_mech e (some (some mech, arg)) = started e (
      new_auth crates.sasl db hostname crates.plain_auth_msg crates.base64_decode
        (to_ascii_uppercase mech) arg)

  -- `AuthState::init_sasl`
  unfoldable pub init_sasl : Command → EhloState → Action IoError Env (AuthResult Session)
  init_sasl cmd e = with_mech e (crates.auth_captures cmd.message)

  abbrev pub stepped :
      EhloState
      → Result AuthError (Option User) × Auth Session
      → Action IoError Env (AuthResult Session)
  stepped e (ok none, a) = do
    s ← auth_flush (record { auth = a; from_state = e })
    pure (unfinished s)
  stepped e (ok (some user), a) = pure (authorized e user)
  stepped e (err x, a) = pure (bad_credentials e)

  -- `AuthState::handle_auth_step`
  unfoldable pub handle_auth_step :
      Command → AuthState Session → Action IoError Env (AuthResult Session)
  handle_auth_step cmd a =
      stepped a.from_state (auth_step crates.sasl db hostname a.auth (some (msg_strip_lf cmd)))
