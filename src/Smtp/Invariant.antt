-- ===== src/Smtp/Invariant.antt =====
-- What holds of a connection between two messages.
pub mod Rcpt
pub mod Mail
pub mod Login
pub mod Receive
use whalemail.Prelude.{true, Option, none, some, ◌≡◌, ◌≢◌, Bool, List, [], All}
use whalemail.Prelude.Outcome.{ok}
use whalemail.Text.{Text}
use whalemail.Config.{Hostname}
use whalemail.User.{User, Authorized, from_authorized}
use whalemail.Envelope.{MailAddress, new_address}
use whalemail.UserDb.{UserDb}
use whalemail.Auth.Accepted.{Accepts, IsSound}
use whalemail.Smtp.Rcpt.{may_send_to}
use whalemail.Smtp.Crates.{Env}
use whalemail.Smtp.State.{
  SmtpState, init, helo, ehlo, auth, mail, rcpt, data', datacomplete, quit, cancelled,
  MailFromState, RcptState, DataState, AuthState,
}
use whalemail.Net.{Socket}

-- the user database accepted credentials of the user
abbrev pub IsAccepted : UserDb → User → Type 0
IsAccepted db u = (a : Authorized) × (u ≡ from_authorized a) × Accepts db a

abbrev pub IsAuthorized : UserDb → Option User → Type 0
IsAuthorized db none = Unit
IsAuthorized db (some u) = IsAccepted db u

-- an authorized client sends from a local mailbox only if it is its own
abbrev pub IsOwnSender : Option User → Bool → MailAddress → Type 0
IsOwnSender none local sender = Unit
IsOwnSender (some u) local sender = local ≡ true → u.identity ≡ sender.address

-- the recipient is as it was parsed, and the client may send to it
pub record IsPermitted (hostname : Hostname) (authorized : Option User) (a : MailAddress)
    : Type 0 where
  pub parsed : new_address a.address hostname ≡ some a
  pub permitted : may_send_to hostname authorized a ≡ true

pub record IsValidMail (db : UserDb) (m : MailFromState) : Type 0 where
  pub is_authorized : IsAuthorized db m.authorized
  pub own_sender : IsOwnSender m.authorized m.is_local_sender m.sender

pub record IsValidRcpt (db : UserDb) (hostname : Hostname) (r : RcptState) : Type 0 where
  pub is_authorized : IsAuthorized db r.authorized
  pub own_sender : IsOwnSender r.authorized r.is_local_sender r.sender
  pub same_host : r.hostname ≡ hostname
  pub permitted : All (IsPermitted hostname r.authorized) r.recipients

pub record IsValidData (db : UserDb) (hostname : Hostname) (d : DataState) : Type 0 where
  pub is_authorized : IsAuthorized db d.authorized
  pub own_sender : IsOwnSender d.authorized d.is_local_sender d.sender
  pub some_recipient : d.recipients ≢ []
  pub permitted : All (IsPermitted hostname d.authorized) d.recipients

-- `Holds` is what the SASL library keeps of a session
abbrev pub IsValid :
    {Session : Type 0} → UserDb → Hostname → (Session → Type 0) → SmtpState Session → Type 0
IsValid db hostname Holds (ehlo e) = IsAuthorized db e.authorized
IsValid db hostname Holds (auth a) =
    IsAuthorized db a.from_state.authorized × Holds a.auth.session × IsSound db a.auth.authorized
IsValid db hostname Holds (mail m) = IsValidMail db m
IsValid db hostname Holds (rcpt r) = IsValidRcpt db hostname r × (r.recipients ≢ [])
IsValid db hostname Holds (data' d) = IsValidData db hostname d
IsValid db hostname Holds _ = Unit

-- a property of the environment that does not read the socket
abbrev pub SocketFree : (Env → Type 0) → Type 0
SocketFree I = (env : Env) (k : Socket) → I env → I (record env { socket = k })
