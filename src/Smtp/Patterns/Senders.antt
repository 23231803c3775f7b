-- ===== src/Smtp/Patterns/Senders.antt =====
-- What MAIL does with each message, by the text of the message.
use whalemail.Prelude.{◌≡◌, ◌↔◌, refl, none, some, Option, Option-cases, inl, inr}
use whalemail.Prelude.Action.{pure, ◌>>◌}
use whalemail.Text.{Text, codes}
use whalemail.Config.{Hostname}
use whalemail.UserDb.{UserDb}
use whalemail.Envelope.{new_address}
use whalemail.Envelope.Pieces.{IsFree, at, of_parts, new_address_iff}
use whalemail.Regex.{IsCaptures}
use whalemail.Regex.Address.{IsSpelled}
use whalemail.Command.{Command}
use whalemail.Smtp.Crates.{send}
use whalemail.Smtp.State.{SmtpState, msg_bad_command, msg_invalid_host}
use whalemail.Smtp.Mail.{parse_address, mail_from, check_sender}
use whalemail.Smtp.Patterns.{mail_cmd, parse_address-IsSpelled}

abbrev mail_word : Text
mail_word = codes "MAIL FROM:<"

-- If the captures are those of the pattern of MAIL as the crate documents them, then for every message:
-- if it is `MAIL FROM:<l@d>\r\n`, the word in any case, with no `>` in the address and no other `@`,
-- the sender checked is the one of the parts l and d; if it has such a form with a text in the brackets
-- that is no address, the reply is the one of an invalid host and the state is kept; and if it has no
-- such form, the reply is the one of a bad command and the state is kept.
pub mail_from-IsSpelled :
    {Session : Type 0} (db : UserDb) (captures : Text → Option (Option Text)) (hostname : Hostname)
    (cmd : Command) (from_state : SmtpState Session)
    → IsCaptures mail_cmd captures
    → ((l d : Text)
        → IsFree l
        → IsFree d
        → IsSpelled mail_word cmd.message (at l d)
        → mail_from db captures hostname cmd from_state
          ≡ check_sender db from_state (of_parts l d hostname))
      × ((t : Text)
          → IsSpelled mail_word cmd.message t
          → new_address t hostname ≡ none
          → mail_from db captures hostname cmd from_state
            ≡ (do send msg_invalid_host; pure from_state))
      × (((t : Text) → IsSpelled mail_word cmd.message t → ⊥)
          → mail_from db captures hostname cmd from_state
            ≡ (do send msg_bad_command; pure from_state))
unfolding mail_from mail_cmd
mail_from-IsSpelled db captures hostname cmd from_state documented = (
  λ l d fl fd s.
      rw
        (
          (spelled (at l d)).1 s,
          (new_address_iff (at l d) hostname (of_parts l d hostname)).1 (refl, refl, fl, fd),
        )
        refl,
  λ t s bad. rw ((spelled t).1 s, bad) refl,
  λ never. elim (Option-cases (parse_address captures cmd)) [
    | inl n ↦ rw n refl
    | inr (t, e) ↦ absurd (never t ((spelled t).0 e))
  ],
)
  where
    spelled : (t : Text) → (parse_address captures cmd ≡ some t) ↔ IsSpelled mail_word cmd.message t
    spelled = parse_address-IsSpelled mail_word captures documented cmd
