-- ===== src/Smtp/Body.antt =====
-- A mail body that comes in several messages.
use whalemail.Prelude.{
  true, false, ◌≡◌, ◌≢◌, refl, sym, ap, ◌∙◌, none, some, List, [], ◌∷◌, ◌++◌, inl, inr, arith,
  append_assoc, Option-cases, All, flatten,
}
use whalemail.Prelude.Action.{Outcome, done, failed, panicked, Action, pure, continue, ◌>>=◌}
use whalemail.Text.{Text}
use whalemail.Config.{Config}
use whalemail.UserDb.{UserDb}
use whalemail.Envelope.{Envelope}
use whalemail.Net.{IoError}
use whalemail.Command.{Command, new_command}
use whalemail.Transparency.{contains_mail_end, decode_transparency, mail_end}
use whalemail.Transparency.Stuffing.{line_start, stuff}
use whalemail.Transparency.RoundTrip.{decode_transparency-stuff}
use whalemail.Smtp.Crates.{Crates, Env}
use whalemail.Smtp.State.{SmtpState, data', DataState}
use whalemail.Smtp.Delivery.{MailboxDeliveryError}
use whalemail.Smtp.Receive.{envelope_of, settle, finish_mail, decoded, receive_data}
use whalemail.Smtp.Handle.{dispatch, handle}

-- a command keeps the message that it is made of
pub new_command-message : (s : Text) (c : Command) → new_command s ≡ some c → c.message ≡ s
unfolding new_command
new_command-message s c e = ground arith

-- a message that goes on with the body: it does not panic and holds no end
abbrev pub GoesOn : Text → Type 0
GoesOn s = (new_command s ≢ none) × (contains_mail_end s ≡ false)

-- the last message of a body
abbrev pub Ends : Text → Type 0
Ends s = (new_command s ≢ none) × (contains_mail_end s ≡ true)

module _ {Session M : Type 0} (crates : Crates Session M) (config : Config) (db : UserDb) where
  -- the messages of a connection, one after the other
  unfoldable pub handle_all : SmtpState Session → List Text → Action IoError Env (SmtpState Session)
  handle_all s [] = pure s
  handle_all s (i ∷ is) = handle crates config db s i >>= λ s'. handle_all s' is

  abbrev pub with_body : DataState → Text → DataState
  with_body d body = record d { mail_body = body }

  -- the state whose body is complete
  abbrev pub complete : DataState → Text → DataState
  complete d body = record d { mail_body = body; body_finished = true }

  handle-data :
      (d : DataState) (s : Text)
      → new_command s ≢ none
      → (c : Command) × (c.message ≡ s)
        × (handle crates config db (data' d) s ≡ receive_data crates db config.hostname c d)
  unfolding handle dispatch
  handle-data d s ne = elim (Option-cases (new_command s)) [
    | inl n ↦ absurd (ne n)
    | inr (c, e) ↦ (c, new_command-message s c e, rw e refl)
  ]

  receive_data-GoesOn :
      (d : DataState) (c : Command)
      → contains_mail_end c.message ≡ false
      → receive_data crates db config.hostname c d
        ≡ pure (data' (with_body d (d.mail_body ++ c.message)))
  unfolding receive_data
  receive_data-GoesOn d c n = rw n refl

  receive_data-Ends :
      (d : DataState) (c : Command)
      → contains_mail_end c.message ≡ true
      → receive_data crates db config.hostname c d
        ≡ decoded crates db config.hostname
            (complete d (d.mail_body ++ c.message))
            (decode_transparency (d.mail_body ++ c.message))
  unfolding receive_data
  receive_data-Ends d c y = rw y refl

  abbrev pub finish : DataState → Text → Action IoError Env (SmtpState Session)
  finish d body = decoded crates db config.hostname (complete d body) (decode_transparency body)

  continue-pure : {A : Type 0} (r : Outcome IoError A × Env) → continue r.0 (λ a. pure a) r.1 ≡ r
  continue-pure (done a, env) = refl
  continue-pure (failed e, env) = refl
  continue-pure (panicked, env) = refl

  finish_last :
      (d : DataState) (s : Text)
      → Ends s
      → (env : Env) → handle crates config db (data' d) s env ≡ finish d (d.mail_body ++ s) env
  finish_last d s (ne, y) env =
      let (c, m, h) = handle-data d s ne in
      ap (λ f. f env) (h ∙ receive_data-Ends d c (ap contains_mail_end m ∙ y))
      ∙ ap (λ t. finish d (d.mail_body ++ t) env) m

  handle-GoesOn :
      (d : DataState) (s : Text)
      → GoesOn s
      → (env : Env)
      → handle crates config db (data' d) s env
        ≡ (done (data' (with_body d (d.mail_body ++ s))), env)
  handle-GoesOn d s (ne, n) env =
      let (c, m, h) = handle-data d s ne in
      ap (λ f. f env) (h ∙ receive_data-GoesOn d c (ap contains_mail_end m ∙ n))
      ∙ ap (λ t. (done (data' (with_body d (d.mail_body ++ t))), env)) m

  -- Of a body that comes in several messages, of which the last and no other holds an end of the
  -- mail and none panics, the concatenation is decoded and the result delivered or refused.
  pub handle_all-data :
      (d : DataState) (inputs : List Text) (last : Text)
      → All GoesOn inputs
      → Ends last
      → (env : Env)
      → handle_all (data' d) (inputs ++ last ∷ []) env
        ≡ finish d (d.mail_body ++ (flatten inputs ++ last)) env
  unfolding handle_all
  handle_all-data d [] last g e env =
      continue-pure (handle crates config db (data' d) last env) ∙ finish_last d last e env
  handle_all-data d (i ∷ is) last g e env =
      ap (λ r. continue r.0 (λ s'. handle_all s' (is ++ last ∷ [])) r.1) (handle-GoesOn d i g.0 env)
      ∙ (handle_all-data (with_body d (d.mail_body ++ i)) is last g.1 e env
          ∙ ap (λ t. finish d t env)
              (append_assoc d.mail_body i (flatten is ++ last)
                ∙ ap (λ t. d.mail_body ++ t) (sym (append_assoc i (flatten is) last))))

  settle_body :
      (d : DataState) (text : Text) (e : Envelope)
      (o : Outcome MailboxDeliveryError (Unit {0}) × Env)
      → settle crates db config.hostname (complete d text) e o
        ≡ settle crates db config.hostname d e o
  settle_body d text e (done u, env) = refl
  settle_body d text e (failed x, env) = refl
  settle_body d text e (panicked, env) = refl

  finish_mail-complete :
      (d : DataState) (text body : Text) (env : Env)
      → finish_mail crates db config.hostname (complete d text) body env
        ≡ finish_mail crates db config.hostname d body env
  unfolding finish_mail
  finish_mail-complete d text body env = settle_body d text (envelope_of crates d body env) _

  -- If, from a DATA state with an empty body, a client sends a mail of any content with its periods
  -- stuffed and CR LF . CR LF behind it, in messages of which the last and no other holds an end of
  -- the mail and none panics, the server delivers exactly that content and the terminator.
  pub handle_all-stuff :
      (d : DataState) (content : Text) (inputs : List Text) (last : Text)
      → d.mail_body ≡ []
      → All GoesOn inputs
      → Ends last
      → flatten inputs ++ last ≡ stuff line_start content ++ mail_end
      → (env : Env)
      → handle_all (data' d) (inputs ++ last ∷ []) env
        ≡ finish_mail crates db config.hostname d (content ++ mail_end) env
  handle_all-stuff d content inputs last n g e sent env =
      handle_all-data d inputs last g e env
      ∙ (ap (λ t. finish d t env) (ap (λ b. b ++ (flatten inputs ++ last)) n ∙ sent)
          ∙ (ap
                (λ r.
                  decoded crates db config.hostname
                    (complete d (stuff line_start content ++ mail_end)) r env)
                (decode_transparency-stuff content).0
              ∙ finish_mail-complete d (stuff line_start content ++ mail_end) (content ++ mail_end)
                  env))
