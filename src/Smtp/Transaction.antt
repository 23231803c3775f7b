-- ===== src/Smtp/Transaction.antt =====
-- The steps of a whole mail transaction, when the socket takes every reply.
pub mod Recipients
pub mod Whole
pub mod Stored
pub mod Queued
pub mod Fired
pub mod Over
pub mod Connection
use whalemail.Prelude.{
  Bool, ℕ, ◌≤◌, false, true, ◌≡◌, refl, sym, ap, subst, ◌∙◌, Option, none, some, List, [], ◌∷◌,
  ◌++◌, arith, length, if◌then◌else◌, append_assoc, append-nil,
}
use whalemail.Prelude.Outcome.{ok}
use whalemail.Prelude.Action.{done, Action, pure, continue, ◌>>◌}
use whalemail.Text.{Text, codes, byte_length, utf8_len, text_eq}
use whalemail.Text.Laws.{text_eq_refl}
use whalemail.Config.{Config}
use whalemail.User.{User}
use whalemail.UserDb.{UserDb}
use whalemail.Envelope.{filled, MailAddress, new_address, cached_is_local}
use whalemail.Envelope.Pieces.{IsFree, at, of_parts}
use whalemail.Regex.{IsCaptures}
use whalemail.Regex.Address.{IsSpelled}
use whalemail.Net.{IoError, Socket, sent, send_to}
use whalemail.Command.{Command, CommandVerb, new_command}
use whalemail.Smtp.Body.{new_command-message}
use whalemail.Smtp.Crates.{Crates, Env, send}
use whalemail.Smtp.State.{
  SmtpState, EhloState, ehlo, init, helo, mail, rcpt, data', MailFromState, RcptState, DataState,
  msg_ok, msg_unauthorized,
}
use whalemail.Smtp.Mail.{
  permitted, from_sender, when_permitted, mail_from, check_sender, accept_mail, has_permission,
  parse_address,
}
use whalemail.Smtp.Rcpt.{
  add_rcpt, push_recipient, may_send_to, first_rcpt, next_rcpt, after_first_rcpt, after_next_rcpt,
}
use whalemail.Smtp.Receive.{start_data}
use whalemail.Smtp.Handle.{dispatch, handle, with_command}
use whalemail.Smtp.Patterns.{mail_cmd, rcpt_cmd, parse_address-IsSpelled}
use whalemail.Smtp.Patterns.Senders.{mail_from-IsSpelled}

abbrev pub start_input : Text
start_input = codes "354 start mail input\r\n"

-- the environment after some replies
abbrev pub after : List Text → Env → Env
after ms env = record env { socket = record env.socket { written = env.socket.written ++ ms } }

-- the socket takes the whole of the text if it is the next one that is written
abbrev pub IsSent : Text → Socket → Type 0
IsSent m s = (k : ℕ) × (s.answers (length s.written) ≡ ok k) × (byte_length m ≤ k)

abbrev pub with_written : List Text → Socket → Socket
with_written ms s = record s { written = s.written ++ ms }

-- The socket takes the whole of each of the texts, one after the other.
abbrev pub Takes : List Text → Socket → Type 0
Takes [] s = Unit
Takes (m ∷ ms) s = IsSent m s × Takes ms (with_written (m ∷ []) s)

Takes-left : (ms ns : List Text) (s : Socket) → Takes (ms ++ ns) s → Takes ms s
Takes-left [] ns s w = tt
Takes-left (m ∷ ms) ns s w = (w.0, Takes-left ms ns (with_written (m ∷ []) s) w.1)

Takes-right : (ms ns : List Text) (s : Socket) → Takes (ms ++ ns) s → Takes ns (with_written ms s)
Takes-right [] ns s w =
    subst (λ ws. Takes ns (record s { written = ws })) (sym (append-nil s.written)) w
Takes-right (m ∷ ms) ns s w =
    subst (λ ws. Takes ns (record s { written = ws })) (append_assoc s.written (m ∷ []) ms)
      (Takes-right ms ns (with_written (m ∷ []) s) w.1)

sent-done : (m : Text) (k : ℕ) → byte_length m ≤ k → sent m (ok k) ≡ done tt
sent-done m k h = ground arith

send-IsSent :
    (m : Text) (env : Env) → IsSent m env.socket → send m env ≡ (done tt, after (m ∷ []) env)
unfolding send send_to
send-IsSent m env (k, e, h) = ap (λ o. (o, after (m ∷ []) env)) (ap (sent m) e ∙ sent-done m k h)

-- a reply, and what comes behind it
reply-then :
    {A : Type 0} (m : Text) (env : Env) (k : Action IoError Env A)
    → IsSent m env.socket
    → (do send m; k) env ≡ k (after (m ∷ []) env)
reply-then m env k w = ap (λ r. continue r.0 (λ _. k) r.1) (send-IsSent m env w)

-- the message is read as a command of the verb
abbrev pub IsCommand : CommandVerb → Text → Type 0
IsCommand v m = (c : Command) × (new_command m ≡ some c) × (c.verb ≡ some v)

module _ (config : Config) where
  -- RCPT with an address of two parts to which a client of the authorization may send
  abbrev pub IsRcpt : Option User → Text × Text × Text → Type 0
  IsRcpt authorized (m, l, d) =
      IsCommand CommandVerb.rcpt m
      × IsSpelled (codes "RCPT TO:<") m (at l d)
      × IsFree l
      × IsFree d
      × (may_send_to config.hostname authorized (of_parts l d config.hostname) ≡ true)

  abbrev pub with_rcpt : Text → Text → RcptState → RcptState
  with_rcpt l d r = record r { recipients = r.recipients ++ of_parts l d config.hostname ∷ [] }

module _ {Session M : Type 0} (crates : Crates Session M) (config : Config) (db : UserDb) where
  pub handle-dispatch :
      (s : SmtpState Session) (v : CommandVerb) (m : Text) (h : IsCommand v m)
      → handle crates config db s m ≡ dispatch crates config db s (some v) h.0
  unfolding handle
  handle-dispatch s v m (c, e, f) =
      ap (with_command crates config db s) e ∙ ap (λ o. dispatch crates config db s o c) f

  pub handle-helo :
      (m : Text) (env : Env)
      → IsSent msg_ok env.socket
      → IsCommand CommandVerb.helo m
      → handle crates config db init m env ≡ (done helo, after (msg_ok ∷ []) env)
  unfolding dispatch
  handle-helo m env w h =
      ap (λ f. f env) (handle-dispatch init CommandVerb.helo m h) ∙ reply-then msg_ok env _ w

  pub handle-data :
      (r : RcptState) (m : Text) (env : Env)
      → IsSent start_input env.socket
      → IsCommand CommandVerb.data' m
      → handle crates config db (rcpt r) m env ≡ (
        done (
            data' (record {
              sender = r.sender;
              is_local_sender = r.is_local_sender;
              recipients = r.recipients;
              authorized = r.authorized;
              mail_body = [];
              body_finished = false;
            })),
        after (start_input ∷ []) env,
      )
  unfolding dispatch start_data
  handle-data r m env w h =
      ap (λ f. f env) (handle-dispatch (rcpt r) CommandVerb.data' m h)
      ∙ reply-then (start_input) env _ w

  -- the state behind MAIL with the address of two parts, which is that of a local mailbox or not
  abbrev pub mail_state : Option User → Text → Text → Bool → MailFromState
  mail_state authorized l d local = record {
    sender = record (of_parts l d config.hostname) { is_local_mailbox = some local };
    is_local_sender = local;
    authorized = authorized;
  }

  module _ (l d m : Text) (local : Bool) (env : Env)
      (documented : IsCaptures mail_cmd crates.mail_captures) (w : IsSent msg_ok env.socket)
      (h : IsCommand CommandVerb.mail m)
      (asked : db.is_local_mailbox (of_parts l d config.hostname) ≡ some local) (fl : IsFree l)
      (fd : IsFree d) (spelled : IsSpelled (codes "MAIL FROM:<") m (at l d)) where
    read_sender :
        (s : SmtpState Session)
        → mail_from db crates.mail_captures config.hostname h.0 s
          ≡ check_sender db s (of_parts l d config.hostname)
    read_sender s =
        (mail_from-IsSpelled db crates.mail_captures config.hostname h.0 s documented).0 l d fl fd (
          subst (λ t. IsSpelled (codes "MAIL FROM:<") t (at l d))
            (sym (new_command-message m h.0 h.1)) spelled)

    pub handle-mail :
        handle crates config db helo m env
        ≡ (done (mail (mail_state none l d local)), after (msg_ok ∷ []) env)
    unfolding dispatch check_sender accept_mail cached_is_local
    handle-mail =
        ap (λ f. f env) (handle-dispatch helo CommandVerb.mail m h ∙ read_sender helo)
        ∙ reply-then msg_ok env _ w
        ∙ ap
            (λ o.
              from_sender {Session = Session} db none (filled (of_parts l d config.hostname) o)
                (after (msg_ok ∷ []) env))
            asked

    pub handle-permitted :
        (e : EhloState)
        → (has_permission db e.authorized (of_parts l d config.hostname)).0 ≡ some true
        → handle crates config db (ehlo e) m env
          ≡ (done (mail (mail_state e.authorized l d local)), after (msg_ok ∷ []) env)
    unfolding dispatch check_sender accept_mail cached_is_local has_permission
    handle-permitted e allowed =
        ap (λ f. f env)
          (handle-dispatch (ehlo e) CommandVerb.mail m h
            ∙ read_sender (ehlo e)
            ∙ ap
                (λ o. when_permitted {Session = Session} db e (
                  permitted e.authorized (filled (of_parts l d config.hostname) o).1
                      (filled (of_parts l d config.hostname) o).0,
                  (filled (of_parts l d config.hostname) o).1,
                ))
                asked
            ∙ ap
                (λ b.
                  when_permitted {Session = Session} db e
                    (b, record (of_parts l d config.hostname) { is_local_mailbox = some local }))
                (ap
                    (λ o.
                      permitted e.authorized (filled (of_parts l d config.hostname) o).1
                        (filled (of_parts l d config.hostname) o).0)
                    (sym asked)
                  ∙ allowed))
        ∙ reply-then msg_ok env _ w
