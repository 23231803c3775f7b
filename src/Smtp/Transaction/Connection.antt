-- ===== src/Smtp/Transaction/Connection.antt =====
-- A whole connection: the greeting, a mail transaction and QUIT, as the bytes that the server reads.
use whalemail.Prelude.{
  some, Bool, none, ◌≡◌, ap, ◌∙◌, inl, inr, List, [], ◌∷◌, ◌++◌, All, append_assoc, flatten,
}
use whalemail.Prelude.Outcome.{ok}
use whalemail.Prelude.Action.{done, continue}
use whalemail.Text.{Text, codes}
use whalemail.Text.Utf8.{as_bytes}
use whalemail.Config.{Config}
use whalemail.UserDb.{UserDb}
use whalemail.MultiMap.{IsMultiMap}
use whalemail.Envelope.Pieces.{of_parts, IsFree, at}
use whalemail.Maildir.{DiskCall, build_new_dir}
use whalemail.Maildir.Stored.{HasClock, Answering}
use whalemail.Regex.{IsCaptures}
use whalemail.Regex.Address.{IsSpelled}
use whalemail.Command.{CommandVerb}
use whalemail.Transparency.{mail_end}
use whalemail.Transparency.Stuffing.{line_start, stuff}
use whalemail.Smtp.Body.{GoesOn, Ends}
use whalemail.Smtp.Crates.{Crates, Env}
use whalemail.Smtp.State.{SmtpState, init, datacomplete, quit, msg_ok}
use whalemail.Smtp.Handle.{dispatch, greet, quit_complete, ignore, kind_of}
use whalemail.Smtp.Session.{ended, socket_loop, server_loop, proceed}
use whalemail.Smtp.Delivery.Local.{HasHome, homes}
use whalemail.Smtp.Patterns.{mail_cmd, rcpt_cmd}
use whalemail.Smtp.Phases.{phase_of}
use whalemail.Smtp.Transaction.{
  IsSent, Takes, Takes-left, Takes-right, after, IsCommand, IsRcpt, send-IsSent, reply-then,
  handle-dispatch,
}
use whalemail.Smtp.Transaction.Recipients.{addresses, replies, written_as}
use whalemail.Smtp.Transaction.Whole.{rest_of}
use whalemail.Smtp.Transaction.Stored.{StoresAll, on_disk, drawn, handle_all-stored}
use whalemail.Smtp.Transaction.Over.{
  IsOver, IsReadable, reads_of, read-handle, socket_loop-handle_all,
}

abbrev pub greeting : Text
greeting = codes "220 hi\r\n"

abbrev pub farewell : Text
farewell = codes "221 closing channel\r\n"

joined :
    (ws ms : List Text)
    → ((ws ++ greeting ∷ []) ++ ms) ++ farewell ∷ [] ≡ ws ++ (greeting ∷ (ms ++ farewell ∷ []))
joined ws ms = simp append_assoc

module _ {Session M : Type 0} (crates : Crates Session M) (config : Config) (db : UserDb) where
  greeted :
      (rs : List _) (env : Env)
      → IsSent greeting env.socket
      → server_loop crates config db rs env
        ≡ socket_loop crates config db init rs (after (greeting ∷ []) env)
  unfolding server_loop greet
  greeted rs env w =
      ap (λ r. continue r.0 (λ s. socket_loop crates config db s rs) r.1)
        (reply-then greeting env _ w)

  left :
      (leave : Text) (env : Env)
      → IsSent farewell env.socket
      → IsReadable leave
      → IsCommand CommandVerb.quit leave
      → socket_loop crates config db datacomplete (ok (as_bytes leave) ∷ []) env
        ≡ (done ended, after (farewell ∷ []) env)
  unfolding dispatch quit_complete kind_of
  left leave env w readable h =
      read-handle crates config db datacomplete leave [] env readable
      ∙ ap
          (λ f.
            continue (f env).0 (proceed crates config db (λ s. socket_loop crates config db s []))
              (f env).1)
          (handle-dispatch crates config db datacomplete CommandVerb.quit leave h)
      ∙ ap
          (λ r.
            continue (ignore {A = SmtpState Session} quit r).0
              (proceed crates config db (λ s. socket_loop crates config db s []))
              (ignore {A = SmtpState Session} quit r).1)
          (send-IsSent farewell env w)

  complete-IsOver : IsOver (phase_of {Session = Session} datacomplete) → ⊥
  unfolding phase_of
  complete-IsOver h = elim h [ inl e ↦ cc | inr e ↦ cc ]

  module _ (rs : IsCaptures rcpt_cmd crates.rcpt_captures) (start last content : Text)
      (first : Text × Text × Text) (rcpts : List (Text × Text × Text)) (inputs : List Text)
      (h_start : IsCommand CommandVerb.data' start) (goes : All GoesOn inputs) (ends : Ends last)
      (sent : flatten inputs ++ last ≡ stuff line_start content ++ mail_end)
      (laws : IsMultiMap crates.multimap)
      (h : All (HasHome db) (addresses config (first ∷ rcpts))) where
    -- If the socket takes the whole of each reply, every call of the file system succeeds, the
    -- system clock shows no time before 1970, the multimap and the captures are as their crates
    -- document them and the user database knows a home for each recipient and tells whether the
    -- sender is local, then the server goes through a connection whose reads are the UTF-8 bytes of
    -- HELO, MAIL with an address, RCPT with one or more addresses to which a client may send
    -- without authorization, DATA, a mail of any content with its periods stuffed and CR LF . CR LF
    -- behind it, in messages of which the last and no other holds an end of the mail and none
    -- panics, and QUIT: it greets, replies 250 to each command, 354 to DATA, 250 to the mail and
    -- 221 to QUIT, and ends, and what was asked of the file system is to make a directory and write
    -- the content and the terminator to a file in it, for each recipient in order; the queue is not
    -- changed.
    pub server_loop-stored :
        (hello sender l d leave : Text) (local : Bool) (env : Env)
        → Takes
            (greeting ∷ ((replies config (first ∷ rcpts) ++ msg_ok ∷ []) ++ farewell ∷ []))
            env.socket
        → HasClock crates.unix_time
        → Answering env.storage
        → IsCaptures mail_cmd crates.mail_captures
        → IsCommand CommandVerb.helo hello
        → IsCommand CommandVerb.mail sender
        → db.is_local_mailbox (of_parts l d config.hostname) ≡ some local
        → IsFree l
        → IsFree d
        → IsSpelled (codes "MAIL FROM:<") sender (at l d)
        → All (IsRcpt config none) (first ∷ rcpts)
        → IsCommand CommandVerb.quit leave
        → All IsReadable (hello ∷ sender ∷ rest_of first rcpts start inputs last)
        → IsReadable leave
        → (cs : List DiskCall) × StoresAll crates db env
            (content ++ mail_end)
            (homes db (addresses config (first ∷ rcpts)) h)
            cs
          × (server_loop crates config db
                (reads_of (hello ∷ sender ∷ rest_of first rcpts start inputs last)
                  ++ ok (as_bytes leave) ∷ [])
                env
              ≡ (
                done ended,
                after
                    (greeting ∷ ((replies config (first ∷ rcpts) ++ msg_ok ∷ []) ++ farewell ∷ []))
                    (drawn crates config db (on_disk crates db env (env.storage.disk.calls ++ cs))),
              ))
    unfolding build_new_dir
    server_loop-stored hello sender l d leave local env w clock disk mails h_hello h_sender asked fl
          fd spelled h_rcpts h_leave readable readable_leave =
        let (cs, stores, eq) =
          handle_all-stored crates config db rs start last content first rcpts inputs h_start goes
            ends sent laws h hello sender l d local (after (greeting ∷ []) env)
            (Takes-left (replies config (first ∷ rcpts) ++ msg_ok ∷ []) (farewell ∷ []) _ w.1) clock
            disk mails h_hello h_sender asked fl fd spelled h_rcpts in
        (
          cs,
          stores,
          greeted _ env w.0
              ∙ socket_loop-handle_all crates config db
                  (hello ∷ sender ∷ rest_of first rcpts start inputs last) init datacomplete
                  (ok (as_bytes leave) ∷ []) (after (greeting ∷ []) env) _ readable eq
                  complete-IsOver
              ∙ left leave _
                  (Takes-right (replies config (first ∷ rcpts) ++ msg_ok ∷ []) (farewell ∷ []) _
                    w.1).0
                  readable_leave h_leave
              ∙ ap
                  (λ ms. (
                    done ended,
                    written_as
                        (drawn crates config db
                          (on_disk crates db env (env.storage.disk.calls ++ cs)))
                        ms,
                  ))
                  (joined env.socket.written (replies config (first ∷ rcpts) ++ msg_ok ∷ [])),
        )
