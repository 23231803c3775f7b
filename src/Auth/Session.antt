-- ===== src/Auth/Session.antt =====
-- The crate `rsasl`, as src/auth.rs uses it: sessions that are stepped with the client's messages,
-- write to the client, and ask the program's callback whether credentials are valid.
use whalemail.Prelude.{Option, some, List, ◌≡◌, ℕ}
use whalemail.Prelude.Outcome.{Result, ok}
use whalemail.Text.{Text}
use whalemail.User.{Authorized}

-- `Error` of src/auth.rs
pub data AuthError : Type 0 where
  auth_unsuccessful invalid_mechanism : AuthError

-- what the context of a validation holds: the password is bytes
pub record Credentials : Type 0 where
  pub authzid : Option Text
  pub authid : Option Text
  pub password : Option (List ℕ)

pub data Validated : Type 0 where
  finalized : Authorized → Validated
  not_finalized validation_error : Validated

abbrev pub Validate : Type 0
Validate = Credentials → Validated

pub data Step : Type 0 where
  running finished_sent finished_unsent step_error : Step

-- One call of `step`: its result, what it wrote to the client, and the session behind it.
pub record Sasl (Session : Type 0) : Type 0 where
  pub parse_mechname : Text → Option Text
  pub start_suggested : Text → Option Session
  pub step : Validate → Session → Option Text → Step × List Text × Session
  pub step64 : Validate → Session → Option Text → Step × List Text × Session
  pub validation : Session → Option (Result AuthError Authorized) × Session

-- What the crate documents: a session holds a validated value only if the callback finalized one.
pub record IsSasl {Session : Type 0} (sasl : Sasl Session) : Type 1 where
  pub Holds : Validate → Session → Type 0
  pub started :
      (v : Validate) (name : Text) (s : Session) → sasl.start_suggested name ≡ some s → Holds v s
  pub stepped :
      (v : Validate) (s : Session) (i : Option Text) → Holds v s → Holds v (sasl.step v s i).2
  pub stepped64 :
      (v : Validate) (s : Session) (i : Option Text) → Holds v s → Holds v (sasl.step64 v s i).2
  pub validated :
      (v : Validate) (s : Session) (a : Authorized)
      → Holds v s
      → (sasl.validation s).0 ≡ some (ok a)
      → (c : Credentials) × (v c ≡ finalized a)
