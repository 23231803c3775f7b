-- ===== src/Tests/Transactions.antt =====
-- A whole mail transaction at concrete inputs.
use whalemail.Prelude.{
  some, false, none, ℕ, ◌==◌, if◌then◌else◌, ◌≢◌, ◌≡◌, refl, List, [], ◌∷◌, ◌++◌, All, arith,
}
use whalemail.Prelude.Outcome.{ok}
use whalemail.Prelude.Action.{done}
use whalemail.Text.{Text, codes, text_eq, contains, starts_with, to_ascii_uppercase, ascii_upper}
use whalemail.Envelope.Pieces.{IsFree, of_parts}
use whalemail.Maildir.{DiskCall}
use whalemail.Maildir.Stored.{Answering, HasClock}
use whalemail.Regex.Address.{IsSpelled}
use whalemail.Command.{CommandVerb, new_command}
use whalemail.Transparency.{mail_end}
use whalemail.Transparency.Stuffing.{stuff, next_place}
use whalemail.Smtp.Body.{handle_all}
use whalemail.Smtp.Rcpt.{may_send_to}
use whalemail.Smtp.Handle.{handle}
use whalemail.Smtp.Bounds.{AtMost}
use whalemail.Smtp.Bounds.Handle.{handle-AtMost}
use whalemail.Smtp.State.{helo, init, msg_ok}
use whalemail.Smtp.Receive.{finish_mail}
use whalemail.Smtp.Delivery.Local.{HasHome, homes}
use whalemail.Smtp.Transaction.{Takes, after, IsCommand, IsRcpt, mail_state}
use whalemail.Smtp.Transaction.Recipients.{addresses, replies}
use whalemail.Smtp.Transaction.Whole.{data_of, rest_of, handle_all-transaction}
use whalemail.Smtp.Transaction.Over.{IsReadable, reads_of}
use whalemail.Smtp.Transaction.Connection.{greeting, farewell, server_loop-stored}
use whalemail.Smtp.Session.{ended, server_loop}
use whalemail.Smtp.Crates.{Env}
use whalemail.Text.{byte_length, utf8_len}
use whalemail.Text.Utf8.{as_bytes}
use whalemail.Tests.Running.{ascii, IsAscii-ascii, IsScalar-IsAscii}
use whalemail.Smtp.Transaction.Stored.{StoresAll, on_disk, drawn}
use whalemail.Tests.Maps.{assoc_map-IsMultiMap}
use whalemail.Tests.Library.{TestSession, test_crates, test_config, test_db, test_env, host}
use whalemail.Tests.Deliveries.{first_part, last_part, content, first_part-GoesOn, last_part-Ends}
use whalemail.Tests.Patterns.{mail_captures-IsCaptures, rcpt_captures-IsCaptures}

abbrev hello : Text
hello = codes "HELO c.tld\r\n"

abbrev from_b : Text
from_b = codes "Mail From:<b@x.tld>\r\n"

abbrev to_a : Text × Text × Text
to_a = (codes "RCPT TO:<a@h.tld>\r\n", codes "a", host)

abbrev start : Text
start = codes "DATA\r\n"

hello-IsCommand : IsCommand CommandVerb.helo hello
unfolding new_command
hello-IsCommand = (_, refl, refl)

from_b-IsCommand : IsCommand CommandVerb.mail from_b
unfolding new_command
from_b-IsCommand = (_, refl, refl)

start-IsCommand : IsCommand CommandVerb.data' start
unfolding new_command
start-IsCommand = (_, refl, refl)

from_b-IsSpelled : IsSpelled (codes "MAIL FROM:<") from_b (codes "b@x.tld")
unfolding to_ascii_uppercase ascii_upper
from_b-IsSpelled = record {
  head = codes "Mail From:<";
  spelled = refl;
  same = refl;
  not_empty = λ e. cc e;
  no_bracket = (refl, (refl, (refl, (refl, (refl, (refl, (refl, tt)))))));
}

to_a-IsSpelled : IsSpelled (codes "RCPT TO:<") (to_a.0) (codes "a@h.tld")
unfolding to_ascii_uppercase ascii_upper
to_a-IsSpelled = record {
  head = codes "RCPT TO:<";
  spelled = refl;
  same = refl;
  not_empty = λ e. cc e;
  no_bracket = (refl, (refl, (refl, (refl, (refl, (refl, (refl, tt)))))));
}

free_of : IsFree host × IsFree (codes "a") × IsFree (codes "b") × IsFree (codes "x.tld")
unfolding contains starts_with
free_of = (refl, refl, refl, refl)

to_a-IsRcpt : All (IsRcpt test_config none) (to_a ∷ [])
unfolding new_command may_send_to text_eq
to_a-IsRcpt = (((_, refl, refl), to_a-IsSpelled, free_of.1, free_of.0, refl), tt)

-- a socket that takes as many bytes as each reply has, from the greeting to the one to QUIT
abbrev exact_env : Env
exact_env = record test_env {
  socket = record {
    written = [];
    answers = λ n. ok (if n == 4 then 22 else if n == 6 then 21 else 8);
  };
}

-- the same behind the greeting
abbrev greeted_env : Env
greeted_env = record exact_env { socket = record exact_env.socket { written = greeting ∷ [] } }

greeted_env-Takes : Takes (replies test_config (to_a ∷ [])) greeted_env.socket
unfolding byte_length utf8_len
greeted_env-Takes = (
  (8, refl, omega arith),
  ((8, refl, omega arith), ((8, refl, omega arith), ((22, refl, omega arith), tt))),
)

exact_env-Takes :
    Takes
      (greeting ∷ ((replies test_config (to_a ∷ []) ++ msg_ok ∷ []) ++ farewell ∷ []))
      exact_env.socket
unfolding byte_length utf8_len
exact_env-Takes = (
  (8, refl, omega arith),
  (
    (8, refl, omega arith),
    (
      (8, refl, omega arith),
      (
        (8, refl, omega arith),
        ((22, refl, omega arith), ((8, refl, omega arith), ((21, refl, omega arith), tt))),
      ),
    ),
  ),
)

test_env-Answering : Answering test_env.storage
test_env-Answering n = refl

b-asked : test_db.is_local_mailbox (of_parts (codes "b") (codes "x.tld") host) ≡ some false
unfolding text_eq
b-asked = refl

test_crates-HasClock : HasClock test_crates.unix_time
test_crates-HasClock n e = cc

a-HasHome : All (HasHome test_db) (addresses test_config (to_a ∷ []))
unfolding text_eq
a-HasHome = ((codes "/a", refl), tt)

handle_all-transaction_example :
    handle_all test_crates test_config test_db init
      (hello ∷ from_b ∷ to_a.0 ∷ start ∷ first_part ∷ last_part ∷ [])
      greeted_env
    ≡ finish_mail test_crates test_db host
        (data_of test_crates test_config test_db
          (mail_state test_crates test_config test_db none (codes "b") (codes "x.tld") false)
          (to_a ∷ []))
        (content ++ mail_end)
        (after (replies test_config (to_a ∷ [])) greeted_env)
handle_all-transaction_example =
    handle_all-transaction test_crates test_config test_db rcpt_captures-IsCaptures start last_part
      content to_a [] (first_part ∷ []) start-IsCommand (first_part-GoesOn, tt) last_part-Ends
      (unfold stuff next_place in refl) hello from_b (codes "b") (codes "x.tld") false greeted_env
      greeted_env-Takes mail_captures-IsCaptures hello-IsCommand from_b-IsCommand b-asked free_of.2
      free_of.3 from_b-IsSpelled to_a-IsRcpt

abbrev sent : List Text
sent = hello ∷ from_b ∷ rest_of to_a [] start (first_part ∷ []) last_part

abbrev leave : Text
leave = codes "QUIT\r\n"

leave-IsCommand : IsCommand CommandVerb.quit leave
unfolding new_command
leave-IsCommand = (_, refl, refl)

not_nil : (c : ℕ) (s : Text) → c ∷ s ≢ []
not_nil c s e = cc e

sent-IsReadable : All IsReadable sent
unfolding ascii
sent-IsReadable = (
  (not_nil _ _, IsScalar-IsAscii hello (IsAscii-ascii hello refl)),
  (
    (not_nil _ _, IsScalar-IsAscii from_b (IsAscii-ascii from_b refl)),
    (
      (not_nil _ _, IsScalar-IsAscii (to_a.0) (IsAscii-ascii (to_a.0) refl)),
      (
        (not_nil _ _, IsScalar-IsAscii start (IsAscii-ascii start refl)),
        (
          (not_nil _ _, IsScalar-IsAscii first_part (IsAscii-ascii first_part refl)),
          ((not_nil _ _, IsScalar-IsAscii last_part (IsAscii-ascii last_part refl)), tt),
        ),
      ),
    ),
  ),
)

leave-IsReadable : IsReadable leave
unfolding ascii
leave-IsReadable = (not_nil _ _, IsScalar-IsAscii leave (IsAscii-ascii leave refl))

server_loop-stored_example :
    (cs : List DiskCall) × StoresAll test_crates test_db exact_env
      (content ++ mail_end)
      (homes test_db (addresses test_config (to_a ∷ [])) a-HasHome)
      cs
    × (server_loop test_crates test_config test_db
          (reads_of sent ++ ok (as_bytes leave) ∷ [])
          exact_env
        ≡ (
          done ended,
          after (greeting ∷ ((replies test_config (to_a ∷ []) ++ msg_ok ∷ []) ++ farewell ∷ [])) (
              drawn test_crates test_config test_db
                (on_disk test_crates test_db exact_env (exact_env.storage.disk.calls ++ cs))),
        ))
server_loop-stored_example =
    server_loop-stored test_crates test_config test_db rcpt_captures-IsCaptures start last_part
      content to_a [] (first_part ∷ []) start-IsCommand (first_part-GoesOn, tt) last_part-Ends
      (unfold stuff next_place in refl) assoc_map-IsMultiMap a-HasHome hello from_b (codes "b")
      (codes "x.tld") leave false exact_env exact_env-Takes test_crates-HasClock test_env-Answering
      mail_captures-IsCaptures hello-IsCommand from_b-IsCommand b-asked free_of.2 free_of.3
      from_b-IsSpelled to_a-IsRcpt leave-IsCommand sent-IsReadable leave-IsReadable

handle-AtMost_example :
    AtMost 1 test_env
      (handle {Session = TestSession} test_crates test_config test_db helo from_b test_env).1
handle-AtMost_example = handle-AtMost test_crates test_config test_db helo from_b test_env
