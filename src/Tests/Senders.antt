-- ===== src/Tests/Senders.antt =====
-- MAIL for a local mailbox without authorization, at a concrete input.
use whalemail.Prelude.{true, none, some, ◌≡◌, refl}
use whalemail.Prelude.Action.{done}
use whalemail.Text.{codes, text_eq}
use whalemail.Text.{byte_length, utf8_len}
use whalemail.Net.{send_to}
use whalemail.Command.{Command, CommandVerb}
use whalemail.Smtp.Crates.{send}
use whalemail.Smtp.State.{SmtpState, helo, ehlo, msg_ok, msg_unauthorized}
use whalemail.Smtp.Mail.{parse_address, mail_from}
use whalemail.Smtp.Unchecked.{mail_from-local}
use whalemail.Tests.Library.{TestSession, match_address, test_crates, host, test_db, test_env}
use whalemail.Tests.Start.{own_address, own_address-parsed}

abbrev mail_command : Command
mail_command = record { verb = some CommandVerb.mail; message = codes "MAIL FROM:<a@h.tld>\r\n" }

mail_command-parsed : parse_address test_crates.mail_captures mail_command ≡ some (codes "a@h.tld")
unfolding parse_address match_address
mail_command-parsed = refl

own_address-local : test_db.is_local_mailbox own_address ≡ some true
unfolding text_eq
own_address-local = refl

ok_sent : (send msg_ok test_env).0 ≡ done tt
unfolding send send_to byte_length utf8_len
ok_sent = refl

unauthorized_sent : (send msg_unauthorized test_env).0 ≡ done tt
unfolding send send_to byte_length utf8_len
unauthorized_sent = refl

mail_from-local_example :
    ((mail_from {Session = TestSession} test_db test_crates.mail_captures host mail_command helo
        test_env).0
      ≡ done (
          SmtpState.mail (record {
            sender = record own_address { is_local_mailbox = some true };
            is_local_sender = true;
            authorized = none;
          })))
    × ((mail_from {Session = TestSession} test_db test_crates.mail_captures host mail_command
          (ehlo (record { authorized = none }))
          test_env).0
        ≡ done (ehlo (record { authorized = none })))
mail_from-local_example =
    mail_from-local test_db test_crates.mail_captures host mail_command (codes "a@h.tld")
      own_address test_env mail_command-parsed own_address-parsed own_address-local TestSession
      ok_sent unauthorized_sent
