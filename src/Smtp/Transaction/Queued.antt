-- ===== src/Smtp/Transaction/Queued.antt =====
-- The mail of a client that is logged in, and the outgoing queue.
use whalemail.Prelude.{some, Bool, not, true, ◌≡◌, refl, ap, ◌∙◌, List, [], ◌∷◌, ◌++◌, All, flatten}
use whalemail.Prelude.Action.{Outcome, done, failed, panicked, continue, pure, ◌>>◌}
use whalemail.Text.{Text, codes}
use whalemail.Config.{Config}
use whalemail.UserDb.{UserDb}
use whalemail.MultiMap.{IsMultiMap, has, Distinct}
use whalemail.Net.{IoError}
use whalemail.Envelope.{Envelope}
use whalemail.Envelope.Pieces.{IsFree, at, of_parts}
use whalemail.Regex.{IsCaptures}
use whalemail.Regex.Address.{IsSpelled}
use whalemail.Command.{CommandVerb}
use whalemail.Transparency.{mail_end}
use whalemail.Transparency.Stuffing.{line_start, stuff}
use whalemail.Smtp.Body.{handle_all, GoesOn, Ends}
use whalemail.Smtp.Crates.{Crates, Env, send}
use whalemail.Smtp.State.{DataState, EhloState, ehlo, msg_ok}
use whalemail.Smtp.Mail.{has_permission}
use whalemail.Smtp.Receive.{finish_mail, envelope_of, settle}
use whalemail.Smtp.Delivery.{MailboxDeliveryError, is_nil, deliver_mail}
use whalemail.Smtp.Outgoing.Groups.{remote_to, added, deliver_mail-queue}
use whalemail.Smtp.Patterns.{mail_cmd, rcpt_cmd}
use whalemail.Smtp.Transaction.{Takes, start_input, after, IsCommand, IsRcpt, mail_state}
use whalemail.Smtp.Transaction.Recipients.{addresses, oks}
use whalemail.Smtp.Transaction.Whole.{data_of, rest_of, handle_all-permitted}

-- a reply and the state behind it leave the queue
reply-queue :
    {A : Type 0} (m : Text) (a : A) (env : Env) → ((do send m; pure a) env).1.queue ≡ env.queue
unfolding send
reply-queue {A} m a env = by_outcome (send m env).0 (send m env).1
  where
    by_outcome :
        (o : Outcome IoError (Unit {0})) (env' : Env)
        → (continue {B = A} o (λ _. pure a) env').1.queue ≡ env'.queue
    by_outcome (done u) env' = refl
    by_outcome (failed e) env' = refl
    by_outcome panicked env' = refl

module _ {Session M : Type 0} (crates : Crates Session M) (config : Config) (db : UserDb) where
  settle-queue :
      (d : DataState) (e : Envelope) (r : Outcome MailboxDeliveryError (Unit {0}) × Env)
      → (settle {Session = Session} crates db config.hostname d e r).1.queue ≡ r.1.queue
  settle-queue d e (done u, env) = reply-queue _ _ env
  settle-queue d e (failed x, env) = reply-queue _ _ env
  settle-queue d e (panicked, env) = refl

  -- the mail that is delivered
  abbrev pub mail_of :
      EhloState → Text → Text → Bool → List (Text × Text × Text) → Text → Env → Envelope
  mail_of e l d local rcpts content env =
      envelope_of crates
        (data_of crates config db (mail_state crates config db e.authorized l d local) rcpts)
        (content ++ mail_end) env

  -- If the socket takes the whole of each reply up to the one to DATA and the captures and the
  -- multimap are as their crates document them, then a client in EHLO, logged in or not, that says
  -- MAIL with an address that it may use and of which the user database tells whether it is local,
  -- RCPT with one or more addresses to which it may send and DATA, and sends a mail of any content
  -- with its periods stuffed and CR LF . CR LF behind it, in messages of which the last and no
  -- other holds an end of the mail and none panics, leaves one entry more in the queue if any of
  -- the recipients is remote, with exactly that content and the terminator and the remote
  -- recipients grouped by domain, and the queue as it was otherwise, whatever becomes of the local
  -- delivery.
  pub handle_all-queued :
      (rs : IsCaptures rcpt_cmd crates.rcpt_captures) (start last content : Text)
      (first : Text × Text × Text) (rcpts : List (Text × Text × Text)) (inputs : List Text)
      (h_start : IsCommand CommandVerb.data' start) (goes : All GoesOn inputs) (ends : Ends last)
      (sent : flatten inputs ++ last ≡ stuff line_start content ++ mail_end)
      (laws : IsMultiMap crates.multimap) (e : EhloState) (sender l d : Text) (local : Bool)
      (env : Env)
      → Takes (msg_ok ∷ (oks config (first ∷ rcpts) ++ start_input ∷ [])) env.socket
      → IsCaptures mail_cmd crates.mail_captures
      → IsCommand CommandVerb.mail sender
      → db.is_local_mailbox (of_parts l d config.hostname) ≡ some local
      → IsFree l
      → IsFree d
      → IsSpelled (codes "MAIL FROM:<") sender (at l d)
      → (has_permission db e.authorized (of_parts l d config.hostname)).0 ≡ some true
      → All (IsRcpt config e.authorized) (first ∷ rcpts)
      → (ds : List Text) × Distinct ds
        × ((dom : Text)
            → has dom ds ≡ not (is_nil (remote_to (addresses config (first ∷ rcpts)) dom)))
        × ((handle_all crates config db
              (ehlo e)
              (sender ∷ rest_of first rcpts start inputs last)
              env).1.queue
            ≡ added crates db laws env.queue (mail_of e l d local (first ∷ rcpts) content env) ds)
  unfolding finish_mail
  handle_all-queued rs start last content first rcpts inputs h_start goes ends sent laws e sender l
        d local env w mails h_sender asked fl fd spelled permitted h_rcpts =
      let said = after (msg_ok ∷ (oks config (first ∷ rcpts) ++ start_input ∷ [])) env in
      let mail = mail_of e l d local (first ∷ rcpts) content env in
      let (ds, distinct, keys, eq) =
        deliver_mail-queue crates db laws mail (record said { rng = (crates.new_v4 env.rng).1 }) in
      (
        ds,
        distinct,
        keys,
        ap (λ r. r.1.queue)
              (handle_all-permitted crates config db rs start last content first rcpts inputs
                h_start goes ends sent e sender l d local env w mails h_sender asked fl fd spelled
                permitted h_rcpts)
            ∙ settle-queue
                (data_of crates config db (mail_state crates config db e.authorized l d local)
                  (first ∷ rcpts))
                mail (deliver_mail crates db mail (record said { rng = (crates.new_v4 env.rng).1 }))
            ∙ eq,
      )
