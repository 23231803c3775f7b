-- ===== src/Smtp/Transaction/Recipients.antt =====
-- The recipients of a mail transaction without authorization.
use whalemail.Prelude.{
  true, ◌≡◌, refl, sym, ap, subst, ◌∙◌, none, List, [], ◌∷◌, ◌++◌, map, All, append_assoc,
  append-nil,
}
use whalemail.Prelude.Action.{done, pure, continue, ◌>>◌}
use whalemail.Text.{Text, codes}
use whalemail.Config.{Config}
use whalemail.UserDb.{UserDb}
use whalemail.Envelope.{MailAddress}
use whalemail.Envelope.Pieces.{IsFree, at, of_parts, new_address_iff}
use whalemail.Regex.{IsCaptures}
use whalemail.Regex.Address.{IsSpelled}
use whalemail.Command.{Command, CommandVerb}
use whalemail.Smtp.Body.{new_command-message, handle_all}
use whalemail.Smtp.Crates.{Crates, Env, send}
use whalemail.Smtp.State.{mail, rcpt, MailFromState, RcptState, msg_ok}
use whalemail.Smtp.Rcpt.{
  add_rcpt, push_recipient, may_send_to, first_rcpt, next_rcpt, after_first_rcpt, after_next_rcpt,
}
use whalemail.Smtp.Handle.{dispatch, handle}
use whalemail.Smtp.Patterns.{rcpt_cmd, parse_address-IsSpelled}
use whalemail.Smtp.Transaction.{
  IsSent, Takes, start_input, after, IsCommand, IsRcpt, with_rcpt, handle-dispatch, reply-then,
}

abbrev pub written_as : Env → List Text → Env
written_as env ms = record env { socket = record env.socket { written = ms } }

ap2 : {A B C : Type 0} (f : A → B → C) {a a' : A} {b b' : B} → a ≡ a' → b ≡ b' → f a b ≡ f a' b'
ap2 f p q i = f (p i) (q i)

module _ (config : Config) where
  -- the state before the first recipient
  abbrev pub no_recipients : MailFromState → RcptState
  no_recipients m = record {
    hostname = config.hostname;
    sender = m.sender;
    is_local_sender = m.is_local_sender;
    recipients = [];
    authorized = m.authorized;
  }

  abbrev pub addresses : List (Text × Text × Text) → List MailAddress
  addresses = map (λ p. of_parts p.1 p.2 config.hostname)

  -- one reply for each of the messages
  abbrev pub oks : List (Text × Text × Text) → List Text
  oks = map (λ p. msg_ok)

  -- the replies up to the one to DATA
  abbrev pub replies : List (Text × Text × Text) → List Text
  replies ps = msg_ok ∷ msg_ok ∷ (oks ps ++ start_input ∷ [])

  abbrev pub with_locals : List (Text × Text × Text) → RcptState → RcptState
  with_locals ps r = record r { recipients = r.recipients ++ addresses ps }

module _ {Session M : Type 0} (crates : Crates Session M) (config : Config) (db : UserDb)
    (documented : IsCaptures rcpt_cmd crates.rcpt_captures) where
  add_rcpt-of_parts :
      (c : Command) (l d : Text) (r : RcptState) (env : Env)
      → IsSent msg_ok env.socket
      → r.hostname ≡ config.hostname
      → IsFree l
      → IsFree d
      → may_send_to config.hostname r.authorized (of_parts l d config.hostname) ≡ true
      → IsSpelled (codes "RCPT TO:<") c.message (at l d)
      → add_rcpt crates.rcpt_captures config.hostname c r env
        ≡ (done (none, with_rcpt config l d r), after (msg_ok ∷ []) env)
  unfolding add_rcpt rcpt_cmd push_recipient
  add_rcpt-of_parts c l d r env w h fl fd may s = ap (λ f. f env) pushed ∙ reply-then msg_ok env _ w
    where
      pushed :
          add_rcpt crates.rcpt_captures config.hostname c r
          ≡ (do send msg_ok; pure (none, with_rcpt config l d r))
      pushed =
          rw
            (
              (parse_address-IsSpelled (codes "RCPT TO:<") crates.rcpt_captures documented c
                    (at l d)).1
                  s,
              h,
              (new_address_iff (at l d) config.hostname (of_parts l d config.hostname)).1
                  (refl, refl, fl, fd),
              may,
            )
            refl

  IsSpelled-message :
      (p : Text × Text × Text) (h : IsCommand CommandVerb.rcpt p.0)
      → IsSpelled (codes "RCPT TO:<") p.0 (at p.1 p.2)
      → IsSpelled (codes "RCPT TO:<") h.0.message (at p.1 p.2)
  IsSpelled-message p h s =
      subst (λ t. IsSpelled (codes "RCPT TO:<") t (at p.1 p.2))
        (sym (new_command-message p.0 h.0 h.1)) s

  pub handle-first :
      (p : Text × Text × Text) (m : MailFromState) (env : Env)
      → IsSent msg_ok env.socket
      → IsRcpt config m.authorized p
      → handle crates config db (mail m) p.0 env
        ≡ (done (rcpt (with_rcpt config p.1 p.2 (no_recipients config m))), after (msg_ok ∷ []) env)
  unfolding dispatch first_rcpt after_first_rcpt
  handle-first p m env w (h, s, fl, fd, may) =
      ap (λ f. f env) (handle-dispatch crates config db (mail m) CommandVerb.rcpt p.0 h)
      ∙ ap (λ r. continue r.0 (after_first_rcpt m) r.1)
          (add_rcpt-of_parts h.0 p.1 p.2 (no_recipients config m) env w refl fl fd may
            (IsSpelled-message p h s))

  pub handle-next :
      (p : Text × Text × Text) (r : RcptState) (env : Env)
      → IsSent msg_ok env.socket
      → r.hostname ≡ config.hostname
      → IsRcpt config r.authorized p
      → handle crates config db (rcpt r) p.0 env
        ≡ (done (rcpt (with_rcpt config p.1 p.2 r)), after (msg_ok ∷ []) env)
  unfolding dispatch next_rcpt after_next_rcpt
  handle-next p r env w hn (h, s, fl, fd, may) =
      ap (λ f. f env) (handle-dispatch crates config db (rcpt r) CommandVerb.rcpt p.0 h)
      ∙ ap (λ r. continue r.0 after_next_rcpt r.1)
          (add_rcpt-of_parts h.0 p.1 p.2 r env w hn fl fd may (IsSpelled-message p h s))

  pub handle_all-rcpts :
      (ps : List (Text × Text × Text)) (r : RcptState) (rest : List Text) (env : Env)
      → Takes (oks config ps) env.socket
      → r.hostname ≡ config.hostname
      → All (IsRcpt config r.authorized) ps
      → handle_all crates config db (rcpt r) (map (λ p. p.0) ps ++ rest) env
        ≡ handle_all crates config db
            (rcpt (with_locals config ps r))
            rest
            (after (oks config ps) env)
  unfolding handle_all
  handle_all-rcpts [] r rest env w hn h =
      ap2
        (λ rs ms.
          handle_all crates config db (rcpt (record r { recipients = rs })) rest
            (written_as env ms))
        (sym (append-nil r.recipients)) (sym (append-nil env.socket.written))
  handle_all-rcpts (p ∷ ps) r rest env w hn h =
      ap (λ o. continue o.0 (λ s'. handle_all crates config db s' (map (λ p. p.0) ps ++ rest)) o.1)
        (handle-next p r env w.0 hn h.0)
      ∙ handle_all-rcpts ps (with_rcpt config p.1 p.2 r) rest (after (msg_ok ∷ []) env) w.1 hn h.1
      ∙ ap2
          (λ rs ms.
            handle_all crates config db (rcpt (record r { recipients = rs })) rest
              (written_as env ms))
          (append_assoc r.recipients (of_parts p.1 p.2 config.hostname ∷ []) (addresses config ps))
          (append_assoc env.socket.written (msg_ok ∷ []) (oks config ps))
