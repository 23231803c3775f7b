-- ===== src/Smtp/Phases.antt =====
-- The order of the phases of a session, as a step relation.
pub mod Address
pub mod Login
pub mod Body
pub mod Order
use whalemail.Prelude.{
  true, false, Bool, ◌≡◌, ◌≢◌, refl, ap, ◌∙◌, Option, none, some, List, [], ◌∷◌, ◌++◌, inl, inr,
  arith, Bool-cases, Option-cases,
}
use whalemail.Prelude.Outcome.{Result, ok, err}
use whalemail.Prelude.Action.{Outcome, done, failed, panicked, Action, pure, ◌>>=◌, ◌>>◌}
use whalemail.Prelude.Keeps.{
  Returns, Returns-any, Keeps, Keeps-pure, Keeps-panic, Keeps-bind, Keeps-then,
}
use whalemail.Text.{Text, to_ascii_uppercase}
use whalemail.Config.{Config, Hostname}
use whalemail.User.{User}
use whalemail.UserDb.{UserDb}
use whalemail.Command.{Command, CommandVerb, new_command, msg_strip_lf}
use whalemail.Envelope.{MailAddress, Envelope, new_address}
use whalemail.Net.{IoError}
use whalemail.Transparency.{TransparencySyntaxError, contains_mail_end, decode_transparency}
use whalemail.Auth.Session.{AuthError, invalid_mechanism, auth_unsuccessful}
use whalemail.Auth.{Auth, auth_step, authorized_user, new_auth}
use whalemail.Smtp.Crates.{Crates, Env, send}
use whalemail.Smtp.State.{
  SmtpState, init, helo, ehlo, auth, mail, rcpt, data', datacomplete, quit, cancelled, EhloState,
  AuthState, MailFromState, RcptState, DataState, AuthResult, RcptError, unfinished, authorized,
  bad_mechanism, bad_credentials,
}
use whalemail.Smtp.Delivery.{MailboxDeliveryError, deliver_mail}
use whalemail.Smtp.Mail.{parse_address, mail_from, check_sender, accept_mail, has_permission}
use whalemail.Smtp.Rcpt.{add_rcpt, first_rcpt, after_first_rcpt, next_rcpt, after_next_rcpt}
use whalemail.Smtp.Receive.{
  start_data, receive_data, decoded, finish_mail, settle, envelope_of, respond_syntax_error,
}
use whalemail.Smtp.Login.{
  settle_auth, init_sasl, with_mech, started, finished, stepped, handle_auth_step, respond_auth,
  transition_auth_result,
}
use whalemail.Smtp.Handle.{dispatch, with_command, handle, quit_complete, ignore}
use whalemail.Smtp.Invariant.Rcpt.{Keeps-send, Keeps-send-then}
use whalemail.Smtp.Invariant.Login.{flush-bind}

-- the states of a session without their data
pub data Phase : Type 0 where
  start login hello greeted sender recipients body complete over broken : Phase

unfoldable pub phase_of : {Session : Type 0} → SmtpState Session → Phase
phase_of init = start
phase_of helo = hello
phase_of (ehlo e) = greeted
phase_of (auth a) = login
phase_of (mail m) = sender
phase_of (rcpt r) = recipients
phase_of (data' d) = body
phase_of datacomplete = complete
phase_of quit = over
phase_of cancelled = broken

-- the verbs that each phase waits for; at AUTH and in a body every message counts
unfoldable pub expects : Phase → Option CommandVerb → Bool
expects start (some CommandVerb.helo) = true
expects start (some CommandVerb.ehlo) = true
expects hello (some CommandVerb.mail) = true
expects greeted (some CommandVerb.auth) = true
expects greeted (some CommandVerb.mail) = true
expects sender (some CommandVerb.rcpt) = true
expects recipients (some CommandVerb.rcpt) = true
expects recipients (some CommandVerb.data') = true
expects complete (some CommandVerb.quit) = true
expects login v = true
expects body v = true
expects p v = false

-- what one message of a verb may lead to
pub data Next : Option CommandVerb → Phase → Phase → Type 0 where
  says_helo : Next (some CommandVerb.helo) start hello
  says_ehlo : Next (some CommandVerb.ehlo) start greeted
  login_begins : Next (some CommandVerb.auth) greeted login
  login_refused : Next (some CommandVerb.auth) greeted greeted
  login_goes_on : {v : Option CommandVerb} → Next v login login
  login_ends : {v : Option CommandVerb} → Next v login greeted
  helo_sender : Next (some CommandVerb.mail) hello sender
  ehlo_sender : Next (some CommandVerb.mail) greeted sender
  helo_refused : Next (some CommandVerb.mail) hello hello
  ehlo_refused : Next (some CommandVerb.mail) greeted greeted
  first_recipient : Next (some CommandVerb.rcpt) sender recipients
  first_refused : Next (some CommandVerb.rcpt) sender sender
  more_recipients : Next (some CommandVerb.rcpt) recipients recipients
  body_begins : Next (some CommandVerb.data') recipients body
  body_goes_on : {v : Option CommandVerb} → Next v body body
  delivered : {v : Option CommandVerb} → Next v body complete
  delivery_failed : {v : Option CommandVerb} → Next v body recipients
  leaves : Next (some CommandVerb.quit) complete over
  out_of_order : {v : Option CommandVerb} {p : Phase} → expects p v ≡ false → Next v p broken

abbrev pub Free : Env → Type 0
Free _ = Unit

pub free : (env : Env) (k : _) → Free env → Free (record env { socket = k })
free _ _ _ = tt

pub anything : {E A : Type 0} (m : Action E Env A) → Keeps Free (λ _. Unit) m
anything m = record { at = λ env i. (tt, Returns-any (m env).0) }

module _ {Session : Type 0} where
  abbrev pub Reaches : Option CommandVerb → Phase → SmtpState Session → Type 0
  Reaches v p s = Next v p (phase_of s)

  abbrev pub Leads : Option CommandVerb → Phase → Action IoError Env (SmtpState Session) → Type 0
  Leads v p m = Keeps Free (Reaches v p) m
