-- ===== src/Smtp/Patterns/Lines.antt =====
-- A recipient whose address holds a line end: what RCPT does with it, and what the client writes.
use whalemail.Prelude.{
  true, ◌≡◌, refl, subst, some, none, [], ◌∷◌, ◌++◌, Option, All, append_assoc, arith,
}
use whalemail.Prelude.Action.{pure, ◌>>◌}
use whalemail.Text.{Text, codes, crlf}
use whalemail.Config.{Hostname, Config}
use whalemail.User.{User}
use whalemail.Envelope.{MailAddress, Envelope}
use whalemail.Envelope.Pieces.{IsFree, at, of_parts, new_address_iff}
use whalemail.Regex.{IsCaptures, other_than}
use whalemail.Regex.Address.{IsSpelled}
use whalemail.Command.{Command}
use whalemail.Smtp.Crates.{send}
use whalemail.Smtp.State.{RcptState, msg_ok}
use whalemail.Smtp.Rcpt.{add_rcpt, push_recipient, may_send_to}
use whalemail.Smtp.Patterns.{rcpt_cmd, parse_address-IsSpelled}
use whalemail.Client.Network.{Connection, Network}
use whalemail.Client.Session.{run}
use whalemail.Client.Transcript.{Wrote, run-Wrote}

abbrev rcpt_word : Text
rcpt_word = codes "RCPT TO:<"

abbrev end_line : Text
end_line = codes ">\r\n"

-- a local part with a line end and the head of a further line in it
abbrev pub local_with : Text → Text → Text
local_with l line = l ++ (crlf ++ line)

at-not_empty : (l d : Text) → at l d ≡ [] → ⊥
at-not_empty [] d e = cc
at-not_empty (x ∷ l) d e = cc

may_send_to-authorized :
    (h : Hostname) (o : Option User) (user : User) (to : MailAddress)
    → o ≡ some user
    → may_send_to h o to ≡ true
unfolding may_send_to
may_send_to-authorized h o user to e = ground arith

split_line :
    (l d line : Text)
    → rcpt_word ++ (at (local_with l line) d ++ end_line)
      ≡ (rcpt_word ++ (l ++ crlf)) ++ (at line d ++ end_line)
split_line l d line = simp append_assoc

-- If an authorized client sends a recipient whose local part has a line end in it, with no other
-- `@` and no `>`, the recipient is accepted, and a client that delivers to it
-- writes what follows the line end as a line of its own, in place of a single RCPT.
pub add_rcpt-line :
    (captures : Text → Option (Option Text)) (hostname : Hostname) (cmd : Command) (r : RcptState)
    (user : User) (l d line : Text)
    → IsCaptures rcpt_cmd captures
    → r.authorized ≡ some user
    → IsFree (local_with l line)
    → IsFree d
    → All (λ x. other_than b'>' x ≡ true) (at (local_with l line) d)
    → cmd.message ≡ rcpt_word ++ (at (local_with l line) d ++ end_line)
    → (add_rcpt captures hostname cmd r ≡ (do
      send msg_ok
      pure (
        none,
        record r { recipients = r.recipients ++ of_parts (local_with l line) d r.hostname ∷ [] },
      )))
      × ((conn : Connection) (config : Config) (envelope : Envelope) (w : Network)
          → Wrote conn
              ((codes "EHLO " ++ (config.hostname ++ crlf))
                ∷ (codes "MAIL FROM:<" ++ (envelope.sender.address ++ end_line))
                ∷ ((rcpt_word ++ (l ++ crlf)) ++ (at line d ++ end_line))
                ∷ codes "DATA\r\n"
                ∷ envelope.body
                ∷ [])
              (codes "QUIT\r\n" ∷ [])
              w
              (run conn config envelope (of_parts (local_with l line) d r.hostname ∷ []) w))
unfolding add_rcpt rcpt_cmd push_recipient
add_rcpt-line captures hostname cmd r user l d line documented authorized free_l free_d plain e = (
  rw
      (
        (parse_address-IsSpelled rcpt_word captures documented cmd (at (local_with l line) d)).1
            spelled,
        (new_address_iff (at (local_with l line) d) r.hostname
              (of_parts (local_with l line) d r.hostname)).1
            (refl, refl, free_l, free_d),
        may_send_to-authorized hostname r.authorized user
            (of_parts (local_with l line) d r.hostname) authorized,
      )
      refl,
  λ conn config envelope w.
      subst
        (λ rcpt.
          Wrote conn
            ((codes "EHLO " ++ (config.hostname ++ crlf))
              ∷ (codes "MAIL FROM:<" ++ (envelope.sender.address ++ end_line))
              ∷ rcpt
              ∷ codes "DATA\r\n"
              ∷ envelope.body
              ∷ [])
            (codes "QUIT\r\n" ∷ []) w
            (run conn config envelope (of_parts (local_with l line) d r.hostname ∷ []) w))
        (split_line l d line)
        (run-Wrote conn config envelope (of_parts (local_with l line) d r.hostname ∷ []) w),
)
  where
    spelled : IsSpelled rcpt_word cmd.message (at (local_with l line) d)
    spelled = record {
      head = rcpt_word;
      spelled = e;
      same = refl;
      not_empty = at-not_empty (local_with l line) d;
      no_bracket = plain;
    }
