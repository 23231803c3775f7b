-- ===== src/Client/Logged.antt =====
-- A session with a host leaves what the name server answers as it is.
use whalemail.Prelude.{ℕ, ◌≡◌, List, [], ◌∷◌}
use whalemail.Prelude.Outcome.{Result}
use whalemail.Prelude.Action.{Action, ◌>>◌}
use whalemail.Prelude.Keeps.{Keeps, Keeps-pure, Keeps-then, Returns-any}
use whalemail.Text.{Text, codes}
use whalemail.Config.{Config}
use whalemail.Envelope.{MailAddress, Envelope}
use whalemail.Client.Errors.{ResolveError, ClientError}
use whalemail.Client.Network.{Connection, Network, send, read_reply}
use whalemail.Client.Session.{say, expect, say_recipients, say_quit, run}

-- what a call asks of the network is only logged
say-mx :
    {mx : ℕ → Result ResolveError (List (ℕ × Text))} (conn : Connection) (msg : Text)
    → Keeps (λ w. w.mx ≡ mx) (λ _. Unit) (say conn msg)
unfolding say send
say-mx conn msg = record { at = λ w i. (i, Returns-any _) }

expect-mx :
    {mx : ℕ → Result ResolveError (List (ℕ × Text))} (conn : Connection) (p : Text)
    → Keeps (λ w. w.mx ≡ mx) (λ _. Unit) (expect conn p)
unfolding expect read_reply
expect-mx conn p = record { at = λ w i. (i, Returns-any _) }

ask-mx :
    {mx : ℕ → Result ResolveError (List (ℕ × Text))} {k : Action ClientError Network (Unit {0})}
    (conn : Connection) (msg p : Text)
    → Keeps (λ w. w.mx ≡ mx) (λ _. Unit) k
    → Keeps (λ w. w.mx ≡ mx) (λ _. Unit) (do say conn msg; expect conn p; k)
ask-mx conn msg p h = Keeps-then _ _ (say-mx conn msg) (Keeps-then _ _ (expect-mx conn p) h)

recipients-mx :
    {mx : ℕ → Result ResolveError (List (ℕ × Text))} (conn : Connection) (rs : List MailAddress)
    → Keeps (λ w. w.mx ≡ mx) (λ _. Unit) (say_recipients conn rs)
unfolding say_recipients
recipients-mx conn [] = Keeps-pure tt tt
recipients-mx conn (r ∷ rs) = ask-mx conn _ (codes "250") (recipients-mx conn rs)

quit-mx :
    {mx : ℕ → Result ResolveError (List (ℕ × Text))} (conn : Connection)
    → Keeps (λ w. w.mx ≡ mx) (λ _. Unit) (say_quit conn)
unfolding say_quit send
quit-mx conn = record { at = λ w i. (i, tt) }

pub run-mx :
    {mx : ℕ → Result ResolveError (List (ℕ × Text))} (conn : Connection) (config : Config)
    (e : Envelope) (rs : List MailAddress)
    → Keeps (λ w. w.mx ≡ mx) (λ _. Unit) (run conn config e rs)
unfolding run
run-mx conn config e rs = ask-mx conn _ (codes "250") (
    ask-mx conn _ (codes "250") (
      Keeps-then _ _ (recipients-mx conn rs)
        (ask-mx conn _ (codes "354") (ask-mx conn _ (codes "250") (quit-mx conn)))))
