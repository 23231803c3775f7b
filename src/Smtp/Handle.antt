-- ===== src/Smtp/Handle.antt =====
-- `SmtpServer`: the greeting, and the dispatch of a client's message. The field `state_history` is
-- never written and only printed.
use whalemail.Prelude.{Option, none, some, ◌++◌}
use whalemail.Prelude.Action.{Outcome, done, failed, panicked, Action, pure, ◌>>◌}
use whalemail.Text.{Text, codes}
use whalemail.Config.{Config}
use whalemail.UserDb.{UserDb}
use whalemail.Net.{IoError}
use whalemail.Command.{Command, CommandVerb, new_command}
use whalemail.Smtp.Crates.{Crates, Env, send}
use whalemail.Smtp.Replies.{respond_bad_command}
use whalemail.Smtp.Mail.{mail_from}
use whalemail.Smtp.Rcpt.{first_rcpt, next_rcpt}
use whalemail.Smtp.Receive.{start_data, receive_data}
use whalemail.Smtp.Login.{init_sasl, handle_auth_step, settle_auth}
use whalemail.Smtp.State.{
  SmtpState, init, helo, ehlo, auth, mail, rcpt, data', datacomplete, quit, cancelled, StateKind,
  continue', quit', msg_ok,
}

-- `EhloState::build_ehlo_response`
unfoldable pub build_ehlo_response : Config → Text
build_ehlo_response config =
    codes "250-" ++ (config.hostname ++ codes "\r\n250 AUTH PLAIN LOGIN\r\n")

-- `HeloState::respond`
abbrev pub respond_helo : {Session : Type 0} → Action IoError Env (SmtpState Session)
respond_helo = do send msg_ok; pure helo

-- `EhloState::respond`
abbrev pub respond_ehlo : {Session : Type 0} → Config → Action IoError Env (SmtpState Session)
respond_ehlo config = do
  send (build_ehlo_response config)
  pure (ehlo (record { authorized = none }))

-- the result of `send` is dropped
abbrev pub ignore : {A : Type 0} → A → Outcome IoError (Unit {0}) × Env → Outcome IoError A × Env
ignore a (done u, env) = (done a, env)
ignore a (failed e, env) = (done a, env)
ignore a (panicked, env) = (panicked, env)

-- `CompleteState::quit`
unfoldable pub quit_complete : {Session : Type 0} → Action IoError Env (SmtpState Session)
quit_complete env = ignore quit (send (codes "221 closing channel\r\n") env)

module _ {Session M : Type 0} (crates : Crates Session M) (config : Config) (db : UserDb) where
  -- the `match` on the state and the verb
  unfoldable pub dispatch :
      SmtpState Session → Option CommandVerb → Command → Action IoError Env (SmtpState Session)
  dispatch init (some CommandVerb.helo) cmd = respond_helo
  dispatch init (some CommandVerb.ehlo) cmd = respond_ehlo config
  dispatch (ehlo e) (some CommandVerb.auth) cmd =
      settle_auth (init_sasl crates db config.hostname cmd e)
  dispatch (auth a) verb cmd = settle_auth (handle_auth_step crates db config.hostname cmd a)
  dispatch helo (some CommandVerb.mail) cmd =
      mail_from db crates.mail_captures config.hostname cmd helo
  dispatch (ehlo e) (some CommandVerb.mail) cmd =
      mail_from db crates.mail_captures config.hostname cmd (ehlo e)
  dispatch (mail m) (some CommandVerb.rcpt) cmd =
      first_rcpt crates.rcpt_captures config.hostname cmd m
  dispatch (rcpt r) (some CommandVerb.rcpt) cmd =
      next_rcpt crates.rcpt_captures config.hostname cmd r
  dispatch (rcpt r) (some CommandVerb.data') cmd = start_data r
  dispatch (data' d) verb cmd = receive_data crates db config.hostname cmd d
  dispatch datacomplete (some CommandVerb.quit) cmd = quit_complete
  dispatch state (some verb) cmd = do send (codes "503 Bad sequence\r\n"); pure cancelled
  dispatch state none cmd = do respond_bad_command; pure cancelled

  abbrev pub with_command :
      SmtpState Session → Option Command → Action IoError Env (SmtpState Session)
  with_command state none env = (panicked, env)
  with_command state (some cmd) env = dispatch state cmd.verb cmd env

  -- `SmtpServer::handle`: the state behind the message
  unfoldable pub handle : SmtpState Session → Text → Action IoError Env (SmtpState Session)
  handle state input = with_command state (new_command input)

  -- `SmtpServer::build` with `InitState::greet`
  unfoldable pub greet : Action IoError Env (SmtpState Session)
  greet = do send (codes "220 hi\r\n"); pure init

-- the second half of what `handle` returns
unfoldable pub kind_of : {Session : Type 0} → SmtpState Session → StateKind
kind_of quit = quit'
kind_of cancelled = quit'
kind_of _ = continue'
