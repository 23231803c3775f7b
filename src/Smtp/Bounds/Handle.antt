-- ===== src/Smtp/Bounds/Handle.antt =====
-- The replies to a message.
use whalemail.Prelude.{
  ℕ, ◌+◌, ◌≤◌, Bool, true, false, refl, Option, none, some, if◌then◌else◌, arith,
}
use whalemail.Prelude.Outcome.{Result, ok, err}
use whalemail.Prelude.Action.{Outcome, done, failed, panicked, Action, pure, ◌>>◌}
use whalemail.Text.{Text}
use whalemail.Config.{Config, Hostname}
use whalemail.User.{User}
use whalemail.UserDb.{UserDb}
use whalemail.Envelope.{Envelope}
use whalemail.Net.{IoError}
use whalemail.Command.{Command, CommandVerb, new_command}
use whalemail.Transparency.{
  TransparencySyntaxError, no_newline_mail_end, mail_end_at_unexpected_position, contains_mail_end,
}
use whalemail.Auth.Session.{AuthError, invalid_mechanism, auth_unsuccessful}
use whalemail.Auth.{Auth}
use whalemail.Smtp.Crates.{Crates, Env, send}
use whalemail.Smtp.State.{
  SmtpState, init, helo, ehlo, auth, mail, rcpt, data', datacomplete, quit, cancelled, EhloState,
  DataState, AuthState, AuthResult, unfinished, authorized, bad_mechanism, bad_credentials,
}
use whalemail.Smtp.Delivery.{MailboxDeliveryError, deliver_mail}
use whalemail.Smtp.Receive.{
  start_data, receive_data, respond_syntax_error, settle, finish_mail, decoded, envelope_of,
}
use whalemail.Smtp.Login.{
  flush_buf, respond_auth, auth_flush, started, settle_auth, with_mech, init_sasl, stepped,
  handle_auth_step,
}
use whalemail.Smtp.Handle.{dispatch, with_command, handle, quit_complete, ignore}
use whalemail.Smtp.Bounds.{
  AtMost, AtMost-same, AtMost-trans, Says, Says-pure, Says-panic, Says-bind, Says-more, Says-assoc,
  send-Says, reply-Says,
}
use whalemail.Smtp.Bounds.Delivery.{deliver_mail-Says}
use whalemail.Smtp.Bounds.Addresses.{mail_from-Says, first_rcpt-Says, next_rcpt-Says}

flush_buf-Says : (b : Option Text) → Says 1 (flush_buf b)
flush_buf-Says none = Says-pure 1 tt
flush_buf-Says (some b) = send-Says _

module _ {Session M : Type 0} (crates : Crates Session M) (db : UserDb) (hostname : Hostname) where
  auth_flush-Says : (a : AuthState Session) → Says 1 (auth_flush a)
  unfolding auth_flush
  auth_flush-Says a = Says-bind 1 0 (flush_buf-Says a.auth.write_buf) (λ _. Says-pure 0 _)

  respond_auth-Says : (r : AuthResult Session) → Says 1 (respond_auth r)
  unfolding respond_auth
  respond_auth-Says (unfinished a) = Says-pure 1 tt
  respond_auth-Says (authorized e u) = send-Says _
  respond_auth-Says (bad_mechanism e) = send-Says _
  respond_auth-Says (bad_credentials e) = send-Says _

  settle_auth-Says :
      (n : ℕ) (m : Action IoError Env (AuthResult Session))
      → Says n m
      → Says (n + 1) (settle_auth m)
  unfolding settle_auth
  settle_auth-Says n m h =
      Says-bind n 1 h (λ r. Says-bind 1 0 (respond_auth-Says r) (λ _. Says-pure 0 _))

  started-Says : (e : EhloState) (o : Outcome AuthError (Auth Session)) → Says 1 (started e o)
  started-Says e (failed invalid_mechanism) = Says-pure 1 _
  started-Says e (failed auth_unsuccessful) = Says-pure 1 _
  started-Says e panicked = Says-panic 1
  started-Says e (done a) = Says-bind 1 0 (auth_flush-Says _) (λ s. Says-pure 0 _)

  with_mech-Says :
      (e : EhloState) (o : Option (Option Text × Option Text))
      → Says 1 (with_mech crates db hostname e o)
  with_mech-Says e none = Says-pure 1 _
  with_mech-Says e (some (none, arg)) = Says-pure 1 _
  with_mech-Says e (some (some mech, arg)) = started-Says e _

  stepped-Says :
      (e : EhloState) (r : Result AuthError (Option User) × Auth Session)
      → Says 1 (settle_auth (stepped crates db hostname e r))
  unfolding settle_auth respond_auth
  stepped-Says e (ok none, a) =
      Says-assoc 1 (auth_flush _) (λ s. pure (unfinished s)) _
        (Says-bind 1 0 (auth_flush-Says _) (λ s. Says-pure 0 _))
  stepped-Says e (ok (some user), a) = reply-Says _ (Says-pure 0 _)
  stepped-Says e (err x, a) = reply-Says _ (Says-pure 0 _)

  settle-Says :
      (d : DataState) (e : Envelope) (o : Outcome MailboxDeliveryError (Unit {0})) (env : Env)
      → AtMost 1 env (settle {Session = Session} crates db hostname d e (o, env)).1
  settle-Says d e (done u) env = (reply-Says _ (Says-pure 0 _)).at env
  settle-Says d e (failed x) env = (reply-Says _ (Says-pure 0 _)).at env
  settle-Says d e panicked env = AtMost-same 1 env env refl

  finish_mail-Says :
      (d : DataState) (body : Text)
      → Says 1 (finish_mail {Session = Session} crates db hostname d body)
  unfolding finish_mail
  finish_mail-Says d body = record {
    at = λ env.
        let e = envelope_of crates d body env in
        let drawn = record env { rng = (crates.new_v4 env.rng).1 } in
        let r = deliver_mail crates db e drawn in
        AtMost-trans 0 1 env r.1 (settle {Session = Session} crates db hostname d e r).1
          ((deliver_mail-Says crates db e).at drawn) (settle-Says d e r.0 r.1);
  }

  respond_syntax_error-Says : (e : TransparencySyntaxError) → Says 1 (respond_syntax_error e)
  unfolding respond_syntax_error
  respond_syntax_error-Says no_newline_mail_end = send-Says _
  respond_syntax_error-Says mail_end_at_unexpected_position = send-Says _

  decoded-Says :
      (d : DataState) (r : Result TransparencySyntaxError Text)
      → Says 1 (decoded {Session = Session} crates db hostname d r)
  decoded-Says d (ok body) = finish_mail-Says d body
  decoded-Says d (err e) = Says-bind 1 0 (respond_syntax_error-Says e) (λ _. Says-pure 0 _)

  Says-test :
      {A : Type 0} (b : Bool) (m k : Action IoError Env A)
      → Says 1 m
      → Says 1 k
      → Says 1 (if b then m else k)
  Says-test true m k hm hk = hm
  Says-test false m k hm hk = hk

  receive_data-Says :
      (cmd : Command) (d : DataState)
      → Says 1 (receive_data {Session = Session} crates db hostname cmd d)
  unfolding receive_data
  receive_data-Says cmd d =
      Says-test (contains_mail_end cmd.message) _ _ (decoded-Says _ _) (Says-pure 1 _)

ignored :
    {A : Type 0} (a : A) (env : Env) (r : Outcome IoError (Unit {0}) × Env)
    → AtMost 1 env r.1
    → AtMost 1 env (ignore a r).1
ignored a env (done u, env') h = h
ignored a env (failed e, env') h = h
ignored a env (panicked, env') h = h

quit_complete-Says : {Session : Type 0} → Says 1 (quit_complete {Session = Session})
unfolding quit_complete
quit_complete-Says = record { at = λ env. ignored quit env _ ((send-Says _).at env) }

module _ {Session M : Type 0} (crates : Crates Session M) (config : Config) (db : UserDb) where
  -- two replies to AUTH, one to any other message
  abbrev pub limit : SmtpState Session → ℕ
  limit (ehlo e) = 2
  limit s = 1

  limit-ge : (s : SmtpState Session) → 1 ≤ limit s
  limit-ge (ehlo e) = omega arith
  limit-ge s = omega arith

  single :
      (s : SmtpState Session) {m : Action IoError Env (SmtpState Session)}
      → Says 1 m
      → Says (limit s) m
  single s h = Says-more 1 (limit s) (limit-ge s) h

  refused-Says : (s s' : SmtpState Session) (m : Text) → Says (limit s) (do send m; pure s')
  refused-Says s s' m = single s (reply-Says m (Says-pure 0 s'))

  dispatch-Says :
      (s : SmtpState Session) (v : Option CommandVerb) (cmd : Command)
      → Says (limit s) (dispatch crates config db s v cmd)
  unfolding dispatch start_data init_sasl handle_auth_step
  dispatch-Says (ehlo e) (some CommandVerb.auth) cmd =
      settle_auth-Says crates db config.hostname 1 _ (with_mech-Says crates db config.hostname e _)
  dispatch-Says (auth a) verb cmd = stepped-Says crates db config.hostname a.from_state _
  dispatch-Says helo (some CommandVerb.mail) cmd = mail_from-Says db config.hostname _ cmd helo
  dispatch-Says (ehlo e) (some CommandVerb.mail) cmd =
      single (ehlo e) (mail_from-Says db config.hostname _ cmd (ehlo e))
  dispatch-Says (mail m) (some CommandVerb.rcpt) cmd = first_rcpt-Says _ config.hostname cmd m
  dispatch-Says (rcpt r) (some CommandVerb.rcpt) cmd = next_rcpt-Says _ config.hostname cmd r
  dispatch-Says (data' d) verb cmd = receive_data-Says crates db config.hostname cmd d
  dispatch-Says datacomplete (some CommandVerb.quit) cmd = quit_complete-Says
  dispatch-Says init (some CommandVerb.helo) cmd = reply-Says _ (Says-pure 0 _)
  dispatch-Says init (some CommandVerb.ehlo) cmd = reply-Says _ (Says-pure 0 _)
  dispatch-Says (rcpt r) (some CommandVerb.data') cmd = reply-Says _ (Says-pure 0 _)
  dispatch-Says s (some verb) cmd = refused-Says s cancelled _
  dispatch-Says s none cmd = refused-Says s cancelled _

  -- The server writes at most two replies to a message of a client in EHLO, and at most one in any
  -- other state, whether the message is handled, refused, fails or panics.
  pub handle-AtMost :
      (s : SmtpState Session) (input : Text) (env : Env)
      → AtMost (limit s) env (handle crates config db s input env).1
  unfolding handle
  handle-AtMost s input env = by_command (new_command input) env
    where
      by_command :
          (o : Option Command) (env : Env)
          → AtMost (limit s) env (with_command crates config db s o env).1
      by_command none env = AtMost-same (limit s) env env refl
      by_command (some cmd) env = (dispatch-Says s cmd.verb cmd).at env
