-- ===== src/Auth.antt =====
-- src/auth.rs: authentication on top of SASL sessions.
pub mod Plain
pub mod Session
pub mod Accepted
pub mod Callback
pub mod Calm
use whalemail.Prelude.{
  ℕ, Bool, true, false, not, Option, none, some, List, [], ◌∷◌, ◌++◌, if◌then◌else◌,
}
use whalemail.Prelude.Outcome.{Result, ok, err}
use whalemail.Prelude.Action.{Outcome, done, failed, panicked}
use whalemail.Text.{Text, codes, text_eq, trim}
use whalemail.Text.Utf8.{from_utf8}
use whalemail.Config.{Hostname}
use whalemail.User.{User, Authorized, from_authorized}
use whalemail.UserDb.{UserDb, DbError}
use Session.{
  AuthError, auth_unsuccessful, invalid_mechanism, Credentials, Validated, finalized, not_finalized,
  validation_error, Validate, Step, running, finished_sent, finished_unsent, step_error, Sasl,
}

pub data AuthMech : Type 0 where
  plain login : AuthMech

-- `AuthMech::from`
unfoldable pub mech_from : Text → Result AuthError AuthMech
unfolding text_eq
mech_from name =
    if text_eq name (codes "PLAIN")
    then ok plain
    else if text_eq name (codes "LOGIN")
    then ok login
    else err invalid_mechanism

-- the identity of `Authorized::new`
unfoldable pub resolve_identity : Option Text → Text → Result AuthError Text
unfolding text_eq trim
resolve_identity none username = ok username
resolve_identity (some identity) username =
    if text_eq (trim identity) []
    then ok username
    else if text_eq identity username
    then ok identity
    else err auth_unsuccessful

abbrev authorize :
    Hostname → Text → Text → Result AuthError Text → Result AuthError (Authorized × Text)
authorize hostname username password (err e) = err e
authorize hostname username password (ok identity) =
    ok (record { hostname = hostname; identity = identity; username = username }, password)

abbrev with_password :
    Hostname → Option Text → Text → Option Text → Result AuthError (Authorized × Text)
with_password hostname identity username none = err auth_unsuccessful
with_password hostname identity username (some password) =
    authorize hostname username password (resolve_identity identity username)

-- `Authorized::new`
unfoldable pub new_authorized :
    Hostname → Option Text → Option Text → Option (List ℕ) → Result AuthError (Authorized × Text)
unfolding resolve_identity from_utf8
new_authorized hostname identity (some username) (some password) =
    with_password hostname identity username (from_utf8 password)
new_authorized hostname identity username password = err auth_unsuccessful

abbrev check_user : UserDb → Result AuthError (Authorized × Text) → Validated
check_user db (err e) = not_finalized
check_user db (ok (user, password)) = elim (db.authenticate user password) [
  | ok b ↦ if b then finalized user else not_finalized
  | err e ↦ validation_error
]

-- `Callback::validate`
unfoldable pub validate : UserDb → Hostname → Validate
unfolding new_authorized
validate db hostname c = check_user db (new_authorized hostname c.authzid c.authid c.password)

pub record Auth (Session : Type 0) : Type 0 where
  pub session : Session
  pub write_buf : Option Text
  pub mechname : AuthMech
  pub is_finished : Bool
  pub authorized : Option Authorized

-- `Writer::write`, once for each call that the session makes
unfoldable pub write_all : Option Text → List Text → Option Text
write_all buf [] = buf
write_all none (w ∷ ws) = write_all (some w) ws
write_all (some b) (w ∷ ws) = write_all (some (b ++ w)) ws

-- `Auth::authorized`; the error is `NotFinishedError`
unfoldable pub authorized_user : {Session : Type 0} → Auth Session → Result (Unit {0}) (Option User)
unfolding from_authorized
authorized_user a =
    if not a.is_finished
    then err tt
    else ok (elim a.authorized [ none ↦ none | some u ↦ some (from_authorized u) ])

module _ {Session : Type 0} (sasl : Sasl Session) (db : UserDb) (hostname : Hostname) where
  abbrev session_step : AuthMech → Session → Option Text → Step × List Text × Session
  session_step plain = sasl.step (validate db hostname)
  session_step login = sasl.step64 (validate db hostname)

  -- the part of `Auth::step` behind a finished session
  abbrev take_validation :
      Auth Session
      → Option (Result AuthError Authorized) × Session
      → Result AuthError (Option User) × Auth Session
  take_validation a (none, s) = (err auth_unsuccessful, record a { session = s })
  take_validation a (some (err e), s) = (err auth_unsuccessful, record a { session = s })
  take_validation a (some (ok u), s) =
      (ok (some (from_authorized u)), record a { session = s; authorized = some u })

  abbrev after_step : Auth Session → Step → Result AuthError (Option User) × Auth Session
  after_step a finished_unsent =
      take_validation (record a { is_finished = true }) (sasl.validation a.session)
  after_step a finished_sent = (err auth_unsuccessful, record a { is_finished = true })
  after_step a running = (ok none, a)
  after_step a step_error = (err auth_unsuccessful, a)

  -- `Auth::step`
  unfoldable pub auth_step :
      Auth Session → Option Text → Result AuthError (Option User) × Auth Session
  unfolding validate write_all from_authorized
  auth_step a input =
      let r = session_step a.mechname a.session input in
      after_step (record a { session = r.2; write_buf = write_all a.write_buf r.1 }) r.0

  -- `plain_auth_msg` is the test of the regular expression, `base64_decode` the crate's decoder
  module _ (plain_auth_msg : Text → Bool) (base64_decode : Text → Option (List ℕ)) where
    abbrev pub or_text : Text → Option (List ℕ) → Text
    or_text s none = s
    or_text s (some bytes) = elim (from_utf8 bytes) [ none ↦ s | some t ↦ t ]

    unfoldable pub try_base64_plain_credentials : Text → Text
    unfolding from_utf8
    try_base64_plain_credentials s = if plain_auth_msg s then s else or_text s (base64_decode s)

    abbrev keep_auth :
        Result AuthError (Option User) × Auth Session → Outcome AuthError (Auth Session)
    keep_auth (err e, a) = failed e
    keep_auth (ok u, a) = done a

    abbrev not_error : Auth Session → Step × List Text × Session → Outcome AuthError (Auth Session)
    not_error a (step_error, ws, s) = panicked
    not_error a (_, ws, s) = done (record a { session = s; write_buf = write_all a.write_buf ws })

    -- the first step, by mechanism
    unfoldable pub initial_step :
        Auth Session → AuthMech → Option Text → Outcome AuthError (Auth Session)
    unfolding auth_step try_base64_plain_credentials
    initial_step a plain none = done a
    initial_step a plain (some arg) =
        keep_auth (auth_step a (some (try_base64_plain_credentials arg)))
    initial_step a login arg = not_error a (sasl.step64 (validate db hostname) a.session none)

    abbrev begin :
        Session → Option Text → Result AuthError AuthMech → Outcome AuthError (Auth Session)
    begin session arg (err e) = failed e
    begin session arg (ok mech) =
        initial_step
          (record {
            session = session;
            write_buf = none;
            mechname = mech;
            is_finished = false;
            authorized = none;
          })
          mech arg

    abbrev start : Option Text → Option Text → Outcome AuthError (Auth Session)
    start none arg = failed invalid_mechanism
    start (some name) arg = elim (sasl.start_suggested name) [
      | none ↦ failed invalid_mechanism
      | some session ↦ begin session arg (mech_from name)
    ]

    -- `Auth::new`
    unfoldable pub new_auth : Text → Option Text → Outcome AuthError (Auth Session)
    unfolding initial_step mech_from
    new_auth selected arg = start (sasl.parse_mechname selected) arg
