-- ===== src/Smtp/Phases/Order.antt =====
-- The server keeps the order of the phases.
use whalemail.Prelude.{◌≡◌, refl, Option, none, some}
use whalemail.Prelude.Action.{Outcome, done, failed, panicked}
use whalemail.Prelude.Keeps.{Returns}
use whalemail.Text.{Text}
use whalemail.Config.{Config}
use whalemail.UserDb.{UserDb}
use whalemail.Command.{Command, CommandVerb, new_command}
use whalemail.Net.{IoError}
use whalemail.Smtp.Crates.{Crates, Env}
use whalemail.Smtp.State.{SmtpState, init, helo, ehlo, auth, mail, rcpt, data', datacomplete, quit}
use whalemail.Smtp.Mail.{check_sender}
use whalemail.Smtp.Login.{init_sasl, handle_auth_step}
use whalemail.Smtp.Handle.{dispatch, with_command, handle, quit_complete, ignore}
use whalemail.Smtp.Invariant.Rcpt.{Keeps-send-then}
use whalemail.Smtp.Phases.{
  complete, expects, phase_of, Next, says_helo, says_ehlo, helo_sender, leaves, helo_refused,
  ehlo_refused, out_of_order, free, Reaches, Leads,
}
use whalemail.Smtp.Phases.Address.{
  first_rcpt-Next, next_rcpt-Next, accept_mail-Next, mail_from-Next, check_sender_ehlo-Next,
}
use whalemail.Smtp.Phases.Login.{settle_auth-Next, stepped-Next, with_mech-Next}
use whalemail.Smtp.Phases.Body.{start_data-Next, receive_data-Next}

module _ {Session M : Type 0} (crates : Crates Session M) (config : Config) (db : UserDb) where
  ignored :
      (r : Outcome IoError (Unit {0}) × Env)
      → Returns (Reaches (some CommandVerb.quit) complete) (ignore {A = SmtpState Session} quit r).0
  unfolding phase_of
  ignored (done u, env) = leaves
  ignored (failed e, env) = leaves
  ignored (panicked, env) = tt

  dispatch-Next :
      (s : SmtpState Session) (verb : Option CommandVerb) (cmd : Command)
      → Leads verb (phase_of s) (dispatch crates config db s verb cmd)
  unfolding dispatch phase_of expects init_sasl handle_auth_step check_sender quit_complete
  dispatch-Next init (some CommandVerb.helo) cmd = Keeps-send-then free _ _ says_helo
  dispatch-Next init (some CommandVerb.ehlo) cmd = Keeps-send-then free _ _ says_ehlo
  dispatch-Next (ehlo e) (some CommandVerb.auth) cmd =
      settle_auth-Next db config.hostname _ (with_mech-Next db config.hostname crates e _)
  dispatch-Next (auth a) verb cmd =
      settle_auth-Next db config.hostname _ (stepped-Next db config.hostname crates a.from_state _)
  dispatch-Next helo (some CommandVerb.mail) cmd =
      mail_from-Next db config.hostname _ cmd helo helo_refused
        λ a. accept_mail-Next db config.hostname helo_sender a none
  dispatch-Next (ehlo e) (some CommandVerb.mail) cmd =
      mail_from-Next db config.hostname _ cmd (ehlo e) ehlo_refused
        λ a. check_sender_ehlo-Next db config.hostname e a
  dispatch-Next (mail m) (some CommandVerb.rcpt) cmd = first_rcpt-Next db config.hostname _ cmd m
  dispatch-Next (rcpt r) (some CommandVerb.rcpt) cmd = next_rcpt-Next db config.hostname _ cmd r
  dispatch-Next (rcpt r) (some CommandVerb.data') cmd = start_data-Next r
  dispatch-Next (data' d) verb cmd = receive_data-Next db config.hostname verb crates cmd d
  dispatch-Next datacomplete (some CommandVerb.quit) cmd = record { at = λ env i. (tt, ignored _) }
  dispatch-Next s (some verb) cmd = Keeps-send-then free _ _ (out_of_order refl)
  dispatch-Next s none cmd = Keeps-send-then free _ _ (out_of_order refl)

  -- Whatever message is handled in a state, either no state is returned, or the message is read as a
  -- command and the phase of the state that is returned comes next to the phase of that state at the
  -- command's verb: HELO or EHLO first, then AUTH if wanted, MAIL, RCPT, DATA, the body and QUIT, with
  -- the phase kept at a refused login, sender or recipient, a step back after a failed delivery, and
  -- an end at any verb, or none, for which the phase does not wait.
  pub handle-Next :
      (s : SmtpState Session) (input : Text) (env : Env)
      → Returns
          (λ s'.
            (c : Command) × (new_command input ≡ some c) × Next c.verb (phase_of s) (phase_of s'))
          (handle crates config db s input env).0
  unfolding handle
  handle-Next s input env = by_command (new_command input) refl
    where
      with_verb :
          (c : Command)
          → new_command input ≡ some c
          → (o : Outcome IoError (SmtpState Session)) → Returns (Reaches c.verb (phase_of s)) o
          → Returns
              (λ s'.
                (c : Command) × (new_command input ≡ some c)
                × Next c.verb (phase_of s) (phase_of s'))
              o
      with_verb c e (done s') n = (c, e, n)
      with_verb c e (failed x) n = tt
      with_verb c e panicked n = tt

      by_command :
          (o : Option Command)
          → new_command input ≡ o
          → Returns
              (λ s'.
                (c : Command) × (new_command input ≡ some c)
                × Next c.verb (phase_of s) (phase_of s'))
              (with_command crates config db s o env).0
      by_command none e = tt
      by_command (some c) e =
          with_verb c e (dispatch crates config db s c.verb c env).0
            ((dispatch-Next s c.verb c).at env tt).1
