-- ===== src/Client/Calls.antt =====
-- How many calls `SmtpClient::run` makes on the network.
use whalemail.Prelude.{ℕ, ◌+◌, ◌*◌, ◌≤◌, subst, List, [], ◌∷◌, arith, length, length-append}
use whalemail.Prelude.Action.{Outcome, done, failed, panicked, Action, continue, ◌>>=◌, ◌>>◌}
use whalemail.Text.{Text, codes}
use whalemail.Config.{Config}
use whalemail.Envelope.{MailAddress, Envelope}
use whalemail.Client.Errors.{ClientError}
use whalemail.Client.Network.{Connection, NetCall, Network, log, send, read_reply}
use whalemail.Client.Session.{say, expect, say_recipients, say_quit, run}

abbrev pub AtMost : ℕ → Network → Network → Type 0
AtMost n w w' = length w'.calls ≤ length w.calls + n

-- an action makes at most so many calls
pub record Within (n : ℕ) {E A : Type 0} (m : Action E Network A) : Type 0 where
  pub at : (w : Network) → AtMost n w (m w).1

pub log-AtMost : (c : NetCall) (w : Network) → AtMost 1 w (log c w)
log-AtMost c w = omega (arith, length-append w.calls (c ∷ []))

pub continue-AtMost :
    {E A B : Type 0} (a n : ℕ) (w : Network) (r : Outcome E A × Network)
    (k : A → Action E Network B)
    → AtMost a w r.1
    → ((x : A) → Within n (k x))
    → AtMost (a + n) w (continue r.0 k r.1).1
continue-AtMost a n w (done x, w') k h hk = omega (arith, h, (hk x).at w')
continue-AtMost a n w (failed e, w') k h hk = omega (arith, h)
continue-AtMost a n w (panicked, w') k h hk = omega (arith, h)

Within-bind :
    {E A B : Type 0} {a n : ℕ} {m : Action E Network A} {k : A → Action E Network B}
    → Within a m
    → ((x : A) → Within n (k x))
    → Within (a + n) (m >>= k)
Within-bind {a = a} {n} {m} {k} h hk = record {
  at = λ w. continue-AtMost a n w (m w) k (h.at w) hk;
}

module _ (conn : Connection) where
  say-Within : (msg : Text) → Within 1 (say conn msg)
  unfolding say send
  say-Within msg = record { at = λ w. log-AtMost _ w }

  expect-Within : (p : Text) → Within 1 (expect conn p)
  unfolding expect read_reply
  expect-Within p = record { at = λ w. log-AtMost _ w }

  ask-Within :
      {n : ℕ} {k : Action ClientError Network (Unit {0})} (msg p : Text)
      → Within n k
      → Within (1 + (1 + n)) (do say conn msg; expect conn p; k)
  ask-Within msg p h = Within-bind (say-Within msg) λ _. Within-bind (expect-Within p) λ _. h

  recipients-Within : (rs : List MailAddress) → Within (2 * length rs) (say_recipients conn rs)
  unfolding say_recipients
  recipients-Within [] = record { at = λ w. omega arith }
  recipients-Within (r ∷ rs) =
      subst (λ n. Within n (say_recipients conn (r ∷ rs))) (omega arith)
        (ask-Within _ (codes "250") (recipients-Within rs))

  quit-Within : Within 1 (say_quit conn)
  unfolding say_quit send
  quit-Within = record { at = λ w. log-AtMost _ w }

  pub run-Within :
      (config : Config) (e : Envelope) (rs : List MailAddress)
      → Within (9 + 2 * length rs) (run conn config e rs)
  unfolding run
  run-Within config e rs =
      subst (λ n. Within n (run conn config e rs)) (omega arith)
        (ask-Within _ (codes "250") (
          ask-Within _ (codes "250") (
            Within-bind (recipients-Within rs)
              λ _. ask-Within _ (codes "354") (ask-Within e.body (codes "250") quit-Within))))
