-- ===== src/Client/Transcript.antt =====
-- What `SmtpClient::run` writes, whatever the remote host answers.
use whalemail.Prelude.{
  ℕ, ◌≡◌, ◌≢◌, refl, sym, ap, Option, none, some, List, [], ◌∷◌, ◌++◌, map, arith, append_assoc,
  append-nil,
}
use mathlib.Core.List.{map-append}
use whalemail.Prelude.Outcome.{Result, ok, err}
use whalemail.Prelude.Action.{Outcome, done, failed, panicked, Action, continue, ◌>>◌}
use whalemail.Text.{Text, codes}
use whalemail.Config.{Config}
use whalemail.Envelope.{MailAddress, Envelope}
use whalemail.Net.{IoError, sent}
use whalemail.Client.Errors.{ClientError}
use whalemail.Client.Network.{Connection, NetCall, write, read, Network, send, log, read_reply}
use whalemail.Client.Session.{lift_io, say, judge, expect, say_recipients, say_quit, run}

abbrev Line : Type 0
Line = Connection × Text

-- the texts among the calls that were written
unfoldable pub writes_of : List NetCall → List Line
writes_of [] = []
writes_of (write conn msg ∷ cs) = (conn, msg) ∷ writes_of cs
writes_of (c ∷ cs) = writes_of cs

abbrev pub written : Network → List Line
written w = writes_of w.calls

writes_of-append : (cs ds : List NetCall) → writes_of (cs ++ ds) ≡ writes_of cs ++ writes_of ds
unfolding writes_of
writes_of-append [] ds = refl
writes_of-append (write conn msg ∷ cs) ds = ap (λ l. (conn, msg) ∷ l) (writes_of-append cs ds)
writes_of-append (c ∷ cs) ds = writes_of-append cs ds

pub sent-ne-panicked : (m : Text) (r : Result IoError ℕ) → sent m r ≢ panicked
sent-ne-panicked m (err e) h = cc
sent-ne-panicked m (ok n) h = ground arith

judge-ne-panicked : (p : Text) (r : Option (Result IoError Text)) → judge p r ≢ panicked
judge-ne-panicked p none h = cc
judge-ne-panicked p (some (err e)) h = cc
judge-ne-panicked p (some (ok r)) h = ground arith

module _ (conn : Connection) where
  abbrev lines : List Text → List Line
  lines = map (λ m. (conn, m))

  -- Done, the action wrote all of the messages and those of the end; failed, the first of the messages
  -- and nothing of the end. It did not panic.
  abbrev pub Wrote :
      List Text → List Text → Network → Outcome ClientError (Unit {0}) × Network → Type 0
  Wrote ms end w (done u, w') = written w' ≡ written w ++ lines (ms ++ end)
  Wrote ms end w (failed e, w') =
      (xs : List Text) × (ys : List Text) × (ms ≡ xs ++ ys) × (written w' ≡ written w ++ lines xs)
  Wrote ms end w (panicked, w') = ⊥

  record Writes (ms end : List Text) (m : Action ClientError Network (Unit {0})) : Type 0 where
    at : (w : Network) → Wrote ms end w (m w)

  say-Writes : (m : Text) → Writes (m ∷ []) [] (say conn m)
  unfolding say send
  say-Writes m = record { at = λ w. by_result w (sent m (w.writes _)) (sent-ne-panicked m _) }
    where
      logged : (w : Network) → written (log (write conn m) w) ≡ written w ++ lines (m ∷ [])
      logged w = unfold writes_of in writes_of-append w.calls (write conn m ∷ [])

      by_result :
          (w : Network) (o : Outcome IoError (Unit {0}))
          → o ≢ panicked
          → Wrote (m ∷ []) [] w (lift_io o, log (write conn m) w)
      by_result w (done u) n = logged w
      by_result w (failed e) n = (m ∷ [], [], refl, logged w)
      by_result w panicked n = n refl

  expect-Writes : (p : Text) → Writes [] [] (expect conn p)
  unfolding expect read_reply
  expect-Writes p = record { at = λ w. by_result w (judge p _) (judge-ne-panicked p _) }
    where
      logged : (w : Network) → written (log (read conn) w) ≡ written w ++ []
      logged w = unfold writes_of in writes_of-append w.calls (read conn ∷ [])

      by_result :
          (w : Network) (o : Outcome ClientError (Unit {0}))
          → o ≢ panicked
          → Wrote [] [] w (o, log (read conn) w)
      by_result w (done u) n = logged w
      by_result w (failed e) n = ([], [], refl, logged w)
      by_result w panicked n = n refl

  -- one action behind another writes its messages behind the other's
  then-Writes :
      {ms ns end : List Text} {m k : Action ClientError Network (Unit {0})}
      → Writes ms [] m
      → Writes ns end k
      → Writes (ms ++ ns) end (m >> k)
  then-Writes {ms} {ns} {end} {m} {k} hm hk = record { at = λ w. first w (m w) (hm.at w) }
    where
      second :
          (w w' : Network) (r : Outcome ClientError (Unit {0}) × Network)
          → written w' ≡ written w ++ lines ms
          → Wrote ns end w' r
          → Wrote (ms ++ ns) end w r
      second w w' (done u, w'') e h = simp (h, e, map-append, append_assoc)
      second w w' (failed x, w'') e (xs, ys, p, h) =
          (ms ++ xs, ys, simp (p, append_assoc), simp (h, e, map-append, append_assoc))
      second w w' (panicked, w'') e h = h

      first :
          (w : Network) (r : Outcome ClientError (Unit {0}) × Network)
          → Wrote ms [] w r
          → Wrote (ms ++ ns) end w (continue r.0 (λ _. k) r.1)
      first w (done u, w') e = second w w' (k w') (rw (append-nil ms) at e) (hk.at w')
      first w (failed x, w') (xs, ys, p, h) = (xs, ys ++ ns, simp (p, append_assoc), h)
      first w (panicked, w') h = h

  -- a message, and the reply to it
  ask-Writes :
      {ms end : List Text} {k : Action ClientError Network (Unit {0})} (m p : Text)
      → Writes ms end k
      → Writes (m ∷ ms) end (do say conn m; expect conn p; k)
  ask-Writes m p h = then-Writes (say-Writes m) (then-Writes (expect-Writes p) h)

  abbrev pub rcpt_line : MailAddress → Text
  rcpt_line r = codes "RCPT TO:<" ++ (r.address ++ codes ">\r\n")

  say_recipients-Writes :
      (rs : List MailAddress) → Writes (map rcpt_line rs) [] (say_recipients conn rs)
  unfolding say_recipients
  say_recipients-Writes [] = record { at = λ w. sym (append-nil _) }
  say_recipients-Writes (r ∷ rs) = ask-Writes (rcpt_line r) (codes "250") (say_recipients-Writes rs)

  say_quit-Writes : Writes [] (codes "QUIT\r\n" ∷ []) (say_quit conn)
  unfolding say_quit send
  say_quit-Writes = record {
    at = λ w. unfold writes_of in writes_of-append w.calls (write conn (codes "QUIT\r\n") ∷ []);
  }

  -- the messages of a dialogue
  abbrev pub script : Config → Envelope → List MailAddress → List Text
  script config envelope recipients =
      (codes "EHLO " ++ (config.hostname ++ codes "\r\n"))
      ∷ (codes "MAIL FROM:<" ++ (envelope.sender.address ++ codes ">\r\n"))
      ∷ (map rcpt_line recipients ++ codes "DATA\r\n" ∷ envelope.body ∷ [])

  -- Whatever the remote host answers, the client does not panic; if it is done, it wrote EHLO, MAIL,
  -- RCPT for each recipient in order, DATA, the body and QUIT, and if it failed, it wrote a first part
  -- of these and no QUIT.
  pub run-Wrote :
      (config : Config) (envelope : Envelope) (recipients : List MailAddress) (w : Network)
      → Wrote
          (script config envelope recipients)
          (codes "QUIT\r\n" ∷ [])
          w
          (run conn config envelope recipients w)
  unfolding run
  run-Wrote config envelope recipients = dialogue.at
    where
      dialogue :
          Writes
            (script config envelope recipients)
            (codes "QUIT\r\n" ∷ [])
            (run conn config envelope recipients)
      dialogue = ask-Writes _ (codes "250") (
          ask-Writes _ (codes "250") (
            then-Writes (say_recipients-Writes recipients) (
              ask-Writes _ (codes "354") (ask-Writes envelope.body (codes "250") say_quit-Writes))))
