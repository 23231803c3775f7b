-- ===== src/Client/Success.antt =====
-- `SmtpClient::run` with a remote host that answers as it should.
use whalemail.Prelude.{
  ℕ, ◌+◌, ◌≤◌, true, ◌≡◌, refl, sym, ap, subst, ◌∙◌, fun_ext, some, List, [], ◌∷◌, ◌++◌, map, arith,
  length, length-append,
}
use whalemail.Prelude.Outcome.{ok}
use whalemail.Prelude.Action.{Outcome, done, failed, panicked, Action, continue, ◌>>◌}
use whalemail.Text.{Text, codes, starts_with, byte_length}
use whalemail.Text.Lossy.{from_utf8_lossy}
use whalemail.Config.{Config}
use whalemail.Envelope.{MailAddress, Envelope}
use whalemail.Net.{sent}
use whalemail.Client.Errors.{ClientError}
use whalemail.Client.Network.{Connection, write, read, Network, log, send, read_reply}
use whalemail.Client.Session.{lift_io, say, expect, say_recipients, say_quit, run}
use whalemail.Client.Transcript.{rcpt_line}

-- the n-th call takes the whole message
abbrev pub Takes : Network → ℕ → Text → Type 0
Takes w n msg = (k : ℕ) × (w.writes n ≡ ok k) × (byte_length msg ≤ k)

-- the n-th call returns a reply that starts with the code
abbrev pub Replies : Network → ℕ → Text → Type 0
Replies w n code =
    (b : ℕ) × (bytes : List ℕ) × (w.reads n ≡ some (ok (b ∷ bytes)))
    × (starts_with (from_utf8_lossy (b ∷ bytes)) code ≡ true)

-- from the n-th call on, each message is taken and replied to with its code
abbrev pub Answered : Network → ℕ → List (Text × Text) → Type 0
Answered w n [] = Unit
Answered w n ((msg, code) ∷ xs) = Takes w n msg × Replies w (n + 1) code × Answered w (n + 2) xs

record Goes (xs : List (Text × Text)) (m : Action ClientError Network (Unit {0})) : Type 0 where
  at : (w : Network) (n : ℕ) → length w.calls ≡ n → Answered w n xs → (m w).0 ≡ done tt

then_assoc :
    {A : Type 0} (m j k : Action ClientError Network A) (w : Network)
    → ((m >> j) >> k) w ≡ (m >> (j >> k)) w
then_assoc {A} m j k w = by_result (m w)
  where
    by_result :
        (r : Outcome ClientError A × Network)
        → continue (continue r.0 (λ _. j) r.1).0 (λ _. k) (continue r.0 (λ _. j) r.1).1
          ≡ continue r.0 (λ _. j >> k) r.1
    by_result (done u, w') = refl
    by_result (failed e, w') = refl
    by_result (panicked, w') = refl

module _ (conn : Connection) where
  say-done :
      (w : Network) (msg : Text)
      → Takes w (length w.calls) msg
      → say conn msg w ≡ (done tt, log (write conn msg) w)
  unfolding say send
  say-done w msg (k, e, h) = rw e (ap (λ o. (lift_io o, log (write conn msg) w)) enough)
    where
      enough : sent msg (ok k) ≡ done tt
      enough = ground arith

  expect-done :
      (w : Network) (code : Text)
      → Replies w (length w.calls) code
      → expect conn code w ≡ (done tt, log (read conn) w)
  unfolding expect read_reply
  expect-done w code (b, bytes, e, h) = rw (e, h) refl

  ask-Goes :
      {xs : List (Text × Text)} {k : Action ClientError Network (Unit {0})} (msg code : Text)
      → Goes xs k
      → Goes ((msg, code) ∷ xs) (do say conn msg; expect conn code; k)
  ask-Goes {xs} {k} msg code h = record { at = asked }
    where
      asked :
          (w : Network) (n : ℕ)
          → length w.calls ≡ n
          → Answered w n ((msg, code) ∷ xs)
          → ((do say conn msg; expect conn code; k) w).0 ≡ done tt
      asked w n e a =
          let w1 = log (write conn msg) w in
          let w2 = log (read conn) w1 in
          let e1 = length-append w.calls (write conn msg ∷ []) in
          let e2 = length-append w1.calls (read conn ∷ []) in
          rw
            (
              say-done w msg (subst (λ i. Takes w i msg) (sym e) a.0),
              expect-done w1 code (subst (λ i. Replies w i code) (omega (arith, e, e1)) a.1),
            )
            (h.at w2 (n + 2) (omega (arith, e, e1, e2)) a.2)

  regroup-Goes :
      {xs : List (Text × Text)} (msg code : Text) (m k : Action ClientError Network (Unit {0}))
      → Goes xs (say conn msg >> (expect conn code >> (m >> k)))
      → Goes xs ((say conn msg >> (expect conn code >> m)) >> k)
  regroup-Goes msg code m k h = record { at = λ w n e a. ap (λ q. q.0) (regroup w) ∙ h.at w n e a }
    where
      regroup :
          (w : Network)
          → ((say conn msg >> (expect conn code >> m)) >> k) w
            ≡ (say conn msg >> (expect conn code >> (m >> k))) w
      regroup w =
          then_assoc (say conn msg) (expect conn code >> m) k w
          ∙ ap (λ l. (say conn msg >> l) w) (fun_ext (then_assoc (expect conn code) m k))

  recipients-Goes :
      {xs : List (Text × Text)} {k : Action ClientError Network (Unit {0})} (rs : List MailAddress)
      → Goes xs k
      → Goes (map (λ r. (rcpt_line conn r, codes "250")) rs ++ xs) (say_recipients conn rs >> k)
  unfolding say_recipients
  recipients-Goes [] h = record { at = h.at }
  recipients-Goes {xs} {k} (r ∷ rs) h =
      regroup-Goes (rcpt_line conn r) (codes "250") (say_recipients conn rs) k
        (ask-Goes (rcpt_line conn r) (codes "250") (recipients-Goes rs h))

  -- the messages up to the body, with the codes of the replies to them
  abbrev pub dialogue : Config → Envelope → List MailAddress → List (Text × Text)
  dialogue config envelope recipients =
      (codes "EHLO " ++ (config.hostname ++ codes "\r\n"), codes "250")
      ∷ (codes "MAIL FROM:<" ++ (envelope.sender.address ++ codes ">\r\n"), codes "250")
      ∷ (map (λ r. (rcpt_line conn r, codes "250")) recipients
          ++ (codes "DATA\r\n", codes "354") ∷ (envelope.body, codes "250") ∷ [])

  -- If the remote host takes every message of the dialogue and replies to each with the code that the
  -- client expects, `run` succeeds, whatever becomes of QUIT.
  pub run-Answered :
      (config : Config) (envelope : Envelope) (recipients : List MailAddress) (w : Network)
      → Answered w (length w.calls) (dialogue config envelope recipients)
      → (run conn config envelope recipients w).0 ≡ done tt
  unfolding run say_quit
  run-Answered config envelope recipients w a = whole.at w (length w.calls) refl a
    where
      quit : Goes [] (say_quit conn)
      quit = record { at = λ v n e u. refl }

      whole : Goes (dialogue config envelope recipients) (run conn config envelope recipients)
      whole = ask-Goes _ (codes "250") (
          ask-Goes _ (codes "250") (
            recipients-Goes recipients
              (ask-Goes _ (codes "354") (ask-Goes envelope.body (codes "250") quit))))
