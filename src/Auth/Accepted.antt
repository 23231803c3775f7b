-- ===== src/Auth/Accepted.antt =====
-- Only credentials that the user database accepts authenticate a session.
use whalemail.Prelude.{
  ℕ, Bool, true, false, ◌≡◌, refl, Option, none, some, List, inl, inr, arith, Option-cases,
}
use whalemail.Prelude.Outcome.{Result, ok, err, Result-cases}
use whalemail.Prelude.Keeps.{Returns}
use whalemail.Text.{Text}
use whalemail.Config.{Hostname}
use whalemail.User.{User, Authorized, from_authorized}
use whalemail.UserDb.{UserDb}
use whalemail.Auth.Session.{
  AuthError, Credentials, finalized, Sasl, IsSasl, Step, running, finished_sent, finished_unsent,
  step_error,
}
use whalemail.Auth.{
  Auth, AuthMech, plain, login, validate, write_all, auth_step, initial_step, new_auth, mech_from,
  check_user, session_step, take_validation, after_step, keep_auth, not_error, begin, start,
}

abbrev pub Accepts : UserDb → Authorized → Type 0
Accepts db a = (password : Text) × (db.authenticate a password ≡ ok true)

check_user-Accepts :
    (db : UserDb) (r : Result AuthError (Authorized × Text)) (a : Authorized)
    → check_user db r ≡ finalized a
    → Accepts db a
check_user-Accepts db (err x) a e = cc
check_user-Accepts db (ok (user, password)) a e =
    elim (Result-cases (db.authenticate user password)) [
      | inl (b, p) ↦ (password, ground arith)
      | inr (x, p) ↦ ground arith
    ]

-- What the callback finalizes, the database accepted.
pub validate-Accepts :
    (db : UserDb) (h : Hostname) (c : Credentials) (a : Authorized)
    → validate db h c ≡ finalized a
    → Accepts db a
unfolding validate
validate-Accepts db h c a e = check_user-Accepts db _ a e

abbrev pub IsSound : UserDb → Option Authorized → Type 0
IsSound db none = Unit
IsSound db (some a) = Accepts db a

-- An unfinished session is one that the library holds, and the authorized user is accepted.
pub record IsValidAuth {Session : Type 0} (db : UserDb) (Holds : Session → Type 0)
    (a : Auth Session) : Type 0 where
  pub holds : a.is_finished ≡ false → Holds a.session
  pub sound : IsSound db a.authorized

module _ {Session : Type 0} (sasl : Sasl Session) (laws : IsSasl sasl) (db : UserDb)
    (h : Hostname) where
  abbrev pub Held : Session → Type 0
  Held = laws.Holds (validate db h)

  session_step-Held :
      (m : AuthMech) (s : Session) (i : Option Text)
      → Held s
      → Held (session_step sasl db h m s i).2
  session_step-Held plain s i k = laws.stepped (validate db h) s i k
  session_step-Held login s i k = laws.stepped64 (validate db h) s i k

  -- what a step returns: a running session is held, and a user is accepted
  abbrev pub Stepped : Result AuthError (Option User) × Auth Session → Type 0
  Stepped (ok none, a) = Held a.session × IsSound db a.authorized
  Stepped (ok (some u), a) =
      (x : Authorized) × (u ≡ from_authorized x)
      × (a.authorized ≡ some x)
      × (a.is_finished ≡ true)
      × Accepts db x
  Stepped (err e, a) = Unit

  take_validation-Stepped :
      (a : Auth Session) (r : Option (Result AuthError Authorized) × Session)
      → ((x : Authorized) → r.0 ≡ some (ok x) → Accepts db x)
      → a.is_finished ≡ true
      → Stepped (take_validation sasl db h a r)
  take_validation-Stepped a (none, s) k f = tt
  take_validation-Stepped a (some (err e), s) k f = tt
  take_validation-Stepped a (some (ok u), s) k f = (u, refl, refl, f, k u refl)

  after_step-Stepped :
      (a : Auth Session) (r : Step)
      → Held a.session
      → IsSound db a.authorized
      → Stepped (after_step sasl db h a r)
  after_step-Stepped a running k i = (k, i)
  after_step-Stepped a finished_sent k i = tt
  after_step-Stepped a finished_unsent k i =
      take_validation-Stepped (record a { is_finished = true }) (sasl.validation a.session)
        (λ x e.
          let (c, v) = laws.validated (validate db h) a.session x k e in
          validate-Accepts db h c x v)
        refl
  after_step-Stepped a step_error k i = tt

  -- If the SASL library keeps its laws, a step of a held session whose authorized user is accepted
  -- returns no user with a session that is held, or a finished session with a user whose
  -- credentials the user database accepted, or an error.
  pub auth_step-Stepped :
      (a : Auth Session) (i : Option Text)
      → Held a.session
      → IsSound db a.authorized
      → Stepped (auth_step sasl db h a i)
  unfolding auth_step
  auth_step-Stepped a i k sound =
      let r = session_step sasl db h a.mechname a.session i in
      after_step-Stepped (record a { session = r.2; write_buf = write_all a.write_buf r.1 }) r.0
        (session_step-Held a.mechname a.session i k) sound

  module _ (plain_auth_msg : Text → Bool) (base64_decode : Text → Option (List ℕ)) where
    keep_auth-IsValidAuth :
        (r : Result AuthError (Option User) × Auth Session)
        → Stepped r
        → Returns (IsValidAuth db Held) (keep_auth sasl db h plain_auth_msg base64_decode r)
    keep_auth-IsValidAuth (err e, a) k = tt
    keep_auth-IsValidAuth (ok none, a) k = record { holds = λ _. k.0; sound = k.1 }
    keep_auth-IsValidAuth (ok (some u), a) (x, _, e, f, k) = record {
      holds = λ n. cc;
      sound = rw e k;
    }

    not_error-IsValidAuth :
        (a : Auth Session) (r : Step × List Text × Session)
        → Held r.2
        → IsSound db a.authorized
        → Returns (IsValidAuth db Held) (not_error sasl db h plain_auth_msg base64_decode a r)
    not_error-IsValidAuth a (step_error, ws, s) k sound = tt
    not_error-IsValidAuth a (_, ws, s) k sound = record { holds = λ _. k; sound = sound }

    initial_step-IsValidAuth :
        (a : Auth Session) (m : AuthMech) (arg : Option Text)
        → Held a.session
        → IsSound db a.authorized
        → Returns
            (IsValidAuth db Held)
            (initial_step sasl db h plain_auth_msg base64_decode a m arg)
    unfolding initial_step
    initial_step-IsValidAuth a plain none k sound = record { holds = λ _. k; sound = sound }
    initial_step-IsValidAuth a plain (some arg) k sound =
        keep_auth-IsValidAuth _ (auth_step-Stepped a _ k sound)
    initial_step-IsValidAuth a login arg k sound =
        not_error-IsValidAuth a _ (laws.stepped64 (validate db h) a.session none k) sound

    begin-IsValidAuth :
        (s : Session) (arg : Option Text) (m : Result AuthError AuthMech)
        → Held s
        → Returns (IsValidAuth db Held) (begin sasl db h plain_auth_msg base64_decode s arg m)
    begin-IsValidAuth s arg (err e) k = tt
    begin-IsValidAuth s arg (ok m) k = initial_step-IsValidAuth _ m arg k tt

    -- If the SASL library keeps its laws and a new session is returned, it is held while it is
    -- unfinished, and it carries an authorized user only if the user database accepted credentials
    -- of that user.
    pub new_auth-IsValidAuth :
        (selected : Text) (arg : Option Text)
        → Returns
            (IsValidAuth db Held)
            (new_auth sasl db h plain_auth_msg base64_decode selected arg)
    unfolding new_auth
    new_auth-IsValidAuth selected arg = elim (Option-cases (sasl.parse_mechname selected)) [
      | inl n ↦ rw (n, new_auth) tt
      | inr (name, e) ↦ elim (Option-cases (sasl.start_suggested name)) [
        | inl n ↦ rw (e, n, start) tt
        | inr (s, p) ↦
            rw (e, p, start)
              (begin-IsValidAuth s arg (mech_from name) (laws.started (validate db h) name s p))
      ]
    ]
