-- ===== src/Smtp/Transaction/Whole.antt =====
-- A whole mail transaction without authorization, from HELO to the end of the body.
use whalemail.Prelude.{
  some, Bool, ◌≡◌, refl, ap, ◌∙◌, none, true, List, [], ◌∷◌, ◌++◌, map, All, append_assoc, flatten,
  false,
}
use whalemail.Prelude.Action.{done, continue}
use whalemail.Text.{Text, codes}
use whalemail.Config.{Config}
use whalemail.UserDb.{UserDb}
use whalemail.Envelope.Pieces.{IsFree, at, of_parts}
use whalemail.Regex.{IsCaptures}
use whalemail.Regex.Address.{IsSpelled}
use whalemail.Command.{CommandVerb}
use whalemail.Transparency.{mail_end}
use whalemail.Transparency.Stuffing.{line_start, stuff}
use whalemail.Smtp.Body.{handle_all, GoesOn, Ends, handle_all-stuff}
use whalemail.Smtp.Crates.{Crates, Env}
use whalemail.Smtp.State.{
  init, DataState, MailFromState, EhloState, ehlo, msg_ok, SmtpState, helo, mail,
}
use whalemail.Smtp.Mail.{has_permission}
use whalemail.Smtp.Receive.{finish_mail}
use whalemail.Smtp.Handle.{handle}
use whalemail.Smtp.Patterns.{mail_cmd, rcpt_cmd}
use whalemail.Smtp.Transaction.{
  Takes, Takes-left, Takes-right, start_input, after, IsCommand, IsRcpt, mail_state, handle-helo,
  handle-mail, handle-permitted, handle-data,
}
use whalemail.Smtp.Transaction.Recipients.{
  addresses, oks, replies, written_as, handle-first, handle_all-rcpts,
}

-- what the client sends behind MAIL
abbrev pub rest_of :
    Text × Text × Text → List (Text × Text × Text) → Text → List Text → Text → List Text
rest_of first rcpts start inputs last =
    first.0 ∷ (map (λ p. p.0) rcpts ++ start ∷ (inputs ++ last ∷ []))

joined :
    (ws ms : List Text)
    → ((ws ++ msg_ok ∷ []) ++ ms) ++ start_input ∷ [] ≡ ws ++ (msg_ok ∷ (ms ++ start_input ∷ []))
joined ws ms = simp append_assoc

module _ {Session M : Type 0} (crates : Crates Session M) (config : Config) (db : UserDb) where
  -- a message that is handled with a reply
  next :
      (s s' : SmtpState Session) (m : Text) (ms : List Text) (env env' : Env)
      → handle crates config db s m env ≡ (done s', env')
      → handle_all crates config db s (m ∷ ms) env ≡ handle_all crates config db s' ms env'
  unfolding handle_all
  next s s' m ms env env' e = ap (λ o. continue o.0 (λ s'. handle_all crates config db s' ms) o.1) e

  -- what the client has said before the body, behind MAIL
  abbrev pub data_of : MailFromState → List (Text × Text × Text) → DataState
  data_of m rcpts = record {
    sender = m.sender;
    is_local_sender = m.is_local_sender;
    recipients = addresses config rcpts;
    authorized = m.authorized;
    mail_body = [];
    body_finished = false;
  }

  module _ (rs : IsCaptures rcpt_cmd crates.rcpt_captures) (start last content : Text)
      (first : Text × Text × Text) (rcpts : List (Text × Text × Text)) (inputs : List Text)
      (h_start : IsCommand CommandVerb.data' start) (goes : All GoesOn inputs) (ends : Ends last)
      (sent : flatten inputs ++ last ≡ stuff line_start content ++ mail_end) where
    -- the recipients and the body
    handle_all-rest :
        (m : MailFromState) (env : Env)
        → Takes (oks config (first ∷ rcpts) ++ start_input ∷ []) env.socket
        → All (IsRcpt config m.authorized) (first ∷ rcpts)
        → handle_all crates config db (mail m) (rest_of first rcpts start inputs last) env
          ≡ finish_mail crates db config.hostname
              (data_of m (first ∷ rcpts))
              (content ++ mail_end)
              (after (oks config (first ∷ rcpts) ++ start_input ∷ []) env)
    handle_all-rest m env w (h_first, h_rcpts) =
        next (mail m) _ first.0 _ _ _ (handle-first crates config db rs first m _ w.0 h_first)
        ∙ handle_all-rcpts crates config db rs rcpts _ (start ∷ (inputs ++ last ∷ [])) _
            (Takes-left (oks config rcpts) (start_input ∷ []) _ w.1) refl h_rcpts
        ∙ next _ _ start (inputs ++ last ∷ []) _ _ (
            handle-data crates config db _ start _
              (Takes-right (oks config rcpts) (start_input ∷ []) _ w.1).0 h_start)
        ∙ handle_all-stuff crates config db (data_of m (first ∷ rcpts)) content inputs last refl
            goes ends sent _
        ∙ ap
            (λ ms.
              finish_mail crates db config.hostname (data_of m (first ∷ rcpts))
                (content ++ mail_end) (written_as env ms))
            (joined env.socket.written (oks config rcpts))

    two_replies :
        (d : DataState) (env : Env) (m : Text) (ms : List Text)
        → finish_mail {Session = Session} crates db config.hostname d
            (content ++ mail_end)
            (after ms (after (m ∷ []) env))
          ≡ finish_mail crates db config.hostname d (content ++ mail_end) (after (m ∷ ms) env)
    two_replies d env m ms =
        ap (λ ws. finish_mail crates db config.hostname d (content ++ mail_end) (written_as env ws))
          (append_assoc env.socket.written (m ∷ []) ms)

    -- If the socket takes the whole of each reply, the captures are as the crate documents them and
    -- the user database tells whether the sender is local, then a client that says HELO, MAIL with
    -- an address, RCPT with one or more addresses to which it may send without authorization and
    -- DATA, each in any case of its letters, and then sends a mail of any content with its periods
    -- stuffed and CR LF . CR LF behind it, in messages of which the last and no other holds an end
    -- of the mail and none panics, is answered 250 to each command and 354 to DATA, and what is
    -- delivered is a mail from that address to these recipients in order with exactly that content
    -- and the terminator.
    pub handle_all-transaction :
        (hello sender l d : Text) (local : Bool) (env : Env)
        → Takes (replies config (first ∷ rcpts)) env.socket
        → IsCaptures mail_cmd crates.mail_captures
        → IsCommand CommandVerb.helo hello
        → IsCommand CommandVerb.mail sender
        → db.is_local_mailbox (of_parts l d config.hostname) ≡ some local
        → IsFree l
        → IsFree d
        → IsSpelled (codes "MAIL FROM:<") sender (at l d)
        → All (IsRcpt config none) (first ∷ rcpts)
        → handle_all crates config db init
            (hello ∷ sender ∷ rest_of first rcpts start inputs last)
            env
          ≡ finish_mail crates db config.hostname
              (data_of (mail_state crates config db none l d local) (first ∷ rcpts))
              (content ++ mail_end)
              (after (replies config (first ∷ rcpts)) env)
    handle_all-transaction hello sender l d local env w mails h_hello h_sender asked fl fd spelled
          h_rcpts =
        next init helo hello _ env _ (handle-helo crates config db hello env w.0 h_hello)
        ∙ next helo _ sender _ _ _ (
            handle-mail crates config db l d sender local (after (msg_ok ∷ []) env) mails w.1.0
              h_sender asked fl fd spelled)
        ∙ handle_all-rest (mail_state crates config db none l d local) _ w.1.1 h_rcpts
        ∙ two_replies _ (after (msg_ok ∷ []) env) msg_ok _
        ∙ two_replies _ env msg_ok _

    -- Under the same conditions a client that is logged in and says MAIL with an address that it
    -- may use, RCPT with one or more addresses of any domain and DATA and sends a mail is answered
    -- likewise, and what is delivered is a mail of that user from that address to these recipients
    -- with exactly that content.
    pub handle_all-permitted :
        (e : EhloState) (sender l d : Text) (local : Bool) (env : Env)
        → Takes (msg_ok ∷ (oks config (first ∷ rcpts) ++ start_input ∷ [])) env.socket
        → IsCaptures mail_cmd crates.mail_captures
        → IsCommand CommandVerb.mail sender
        → db.is_local_mailbox (of_parts l d config.hostname) ≡ some local
        → IsFree l
        → IsFree d
        → IsSpelled (codes "MAIL FROM:<") sender (at l d)
        → (has_permission db e.authorized (of_parts l d config.hostname)).0 ≡ some true
        → All (IsRcpt config e.authorized) (first ∷ rcpts)
        → handle_all crates config db (ehlo e) (sender ∷ rest_of first rcpts start inputs last) env
          ≡ finish_mail crates db config.hostname
              (data_of (mail_state crates config db e.authorized l d local) (first ∷ rcpts))
              (content ++ mail_end)
              (after (msg_ok ∷ (oks config (first ∷ rcpts) ++ start_input ∷ [])) env)
    handle_all-permitted e sender l d local env w mails h_sender asked fl fd spelled permitted
          h_rcpts =
        next (ehlo e) _ sender _ _ _ (
          handle-permitted crates config db l d sender local env mails w.0 h_sender asked fl fd
            spelled e permitted)
        ∙ handle_all-rest (mail_state crates config db e.authorized l d local) _ w.1 h_rcpts
        ∙ two_replies _ env msg_ok _
