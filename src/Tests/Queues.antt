-- ===== src/Tests/Queues.antt =====
-- The mail of a client that is logged in, to a remote address, at a concrete input.
use whalemail.Prelude.{some, true, ◌≡◌, refl, List, [], ◌∷◌, ◌++◌, All, not, arith}
use whalemail.Text.{
  Text, codes, text_eq, contains, starts_with, to_ascii_uppercase, ascii_upper, byte_length,
  utf8_len,
}
use whalemail.Tests.Hosts.{table-IsHostMap, test_client, test_client-IsShuffle, test_net}
use whalemail.Tests.Start.{tls_config, test_client-HasTls, test_net-HasNames}
use whalemail.User.{User}
use whalemail.Envelope.{cached_is_local}
use whalemail.Envelope.Pieces.{IsFree, at, of_parts}
use whalemail.MultiMap.{has, Distinct}
use whalemail.Regex.Address.{IsSpelled}
use whalemail.Command.{CommandVerb, new_command}
use whalemail.Transparency.Stuffing.{stuff, next_place}
use whalemail.Smtp.Body.{handle_all}
use whalemail.Smtp.Mail.{has_permission}
use whalemail.Smtp.Rcpt.{may_send_to}
use whalemail.Smtp.State.{ehlo, EhloState, msg_ok}
use whalemail.Smtp.Delivery.{is_nil}
use whalemail.Smtp.Outgoing.Groups.{remote_to, added}
use whalemail.Smtp.Transaction.{Takes, start_input, IsCommand, IsRcpt}
use whalemail.Smtp.Transaction.Recipients.{addresses, oks}
use whalemail.Smtp.Transaction.Whole.{rest_of}
use whalemail.Smtp.Transaction.Fired.{FiresTo, handle_all-fired}
use whalemail.Smtp.Transaction.Queued.{mail_of, handle_all-queued}
use whalemail.Tests.Maps.{assoc_map-IsMultiMap}
use whalemail.Tests.Library.{test_crates, test_config, test_db, test_env, host}
use whalemail.Tests.Deliveries.{first_part, last_part, content, first_part-GoesOn, last_part-Ends}
use whalemail.Tests.Patterns.{mail_captures-IsCaptures, rcpt_captures-IsCaptures}

abbrev user_a : User
user_a = record { hostname = host; identity = codes "a@h.tld"; username = codes "a" }

abbrev logged_in : EhloState
logged_in = record { authorized = some user_a }

abbrev from_a : Text
from_a = codes "MAIL FROM:<a@h.tld>\r\n"

abbrev to_c : Text × Text × Text
to_c = (codes "RCPT TO:<c@y.tld>\r\n", codes "c", codes "y.tld")

abbrev start : Text
start = codes "DATA\r\n"

from_a-IsCommand : IsCommand CommandVerb.mail from_a
unfolding new_command
from_a-IsCommand = (_, refl, refl)

start-IsCommand : IsCommand CommandVerb.data' start
unfolding new_command
start-IsCommand = (_, refl, refl)

from_a-IsSpelled : IsSpelled (codes "MAIL FROM:<") from_a (at (codes "a") host)
unfolding to_ascii_uppercase ascii_upper
from_a-IsSpelled = record {
  head = codes "MAIL FROM:<";
  spelled = refl;
  same = refl;
  not_empty = λ e. cc e;
  no_bracket = (refl, (refl, (refl, (refl, (refl, (refl, (refl, tt)))))));
}

to_c-IsSpelled : IsSpelled (codes "RCPT TO:<") (to_c.0) (codes "c@y.tld")
unfolding to_ascii_uppercase ascii_upper
to_c-IsSpelled = record {
  head = codes "RCPT TO:<";
  spelled = refl;
  same = refl;
  not_empty = λ e. cc e;
  no_bracket = (refl, (refl, (refl, (refl, (refl, (refl, (refl, tt)))))));
}

free_of : IsFree host × IsFree (codes "a") × IsFree (codes "c") × IsFree (codes "y.tld")
unfolding contains starts_with
free_of = (refl, refl, refl, refl)

to_c-IsRcpt : All (IsRcpt test_config (some user_a)) (to_c ∷ [])
unfolding new_command may_send_to text_eq
to_c-IsRcpt = (((_, refl, refl), to_c-IsSpelled, free_of.2, free_of.3, refl), tt)

a-asked : test_db.is_local_mailbox (of_parts (codes "a") host host) ≡ some true
unfolding text_eq
a-asked = refl

may_send : (has_permission test_db (some user_a) (of_parts (codes "a") host host)).0 ≡ some true
unfolding has_permission cached_is_local text_eq
may_send = refl

to_c-remote : not (is_nil (remote_to (addresses test_config (to_c ∷ [])) (codes "y.tld"))) ≡ true
unfolding remote_to text_eq
to_c-remote = refl

test_env-Takes : Takes (msg_ok ∷ (oks test_config (to_c ∷ []) ++ start_input ∷ [])) test_env.socket
unfolding byte_length utf8_len
test_env-Takes =
    ((1000, refl, omega arith), ((1000, refl, omega arith), ((1000, refl, omega arith), tt)))

handle_all-queued_example :
    (ds : List Text) × Distinct ds
    × ((dom : Text) → has dom ds ≡ not (is_nil (remote_to (addresses test_config (to_c ∷ [])) dom)))
    × ((handle_all test_crates test_config test_db
          (ehlo logged_in)
          (from_a ∷ rest_of to_c [] start (first_part ∷ []) last_part)
          test_env).1.queue
        ≡ added test_crates test_db assoc_map-IsMultiMap test_env.queue
            (mail_of test_crates test_config test_db logged_in
              (codes "a")
              host
              true
              (to_c ∷ [])
              content
              test_env)
            ds)
handle_all-queued_example =
    handle_all-queued test_crates test_config test_db rcpt_captures-IsCaptures start last_part
      content to_c [] (first_part ∷ []) start-IsCommand (first_part-GoesOn, tt) last_part-Ends
      (unfold stuff next_place in refl) assoc_map-IsMultiMap logged_in from_a (codes "a") host true
      test_env test_env-Takes mail_captures-IsCaptures from_a-IsCommand a-asked free_of.1 free_of.0
      from_a-IsSpelled may_send to_c-IsRcpt

handle_all-fired_example :
    (ds : List Text) × Distinct ds
    × ((k : Text) → has k ds ≡ not (is_nil (remote_to (addresses tls_config (to_c ∷ [])) k)))
    × FiresTo test_client tls_config test_client-HasTls table-IsHostMap test_client-IsShuffle
        test_env.queue
        (mail_of test_crates tls_config test_db logged_in
          (codes "a")
          host
          true
          (to_c ∷ [])
          content
          test_env)
        ds
        test_net
        (handle_all test_crates tls_config test_db
          (ehlo logged_in)
          (from_a ∷ rest_of to_c [] start (first_part ∷ []) last_part)
          test_env).1.queue
handle_all-fired_example =
    handle_all-fired test_client tls_config test_client-HasTls table-IsHostMap test_client-IsShuffle
      test_crates test_db rcpt_captures-IsCaptures start last_part content to_c [] (first_part ∷ [])
      start-IsCommand (first_part-GoesOn, tt) last_part-Ends (unfold stuff next_place in refl)
      assoc_map-IsMultiMap logged_in from_a (codes "a") host true test_env test_net (codes "y.tld")
      test_net-HasNames test_env-Takes mail_captures-IsCaptures from_a-IsCommand a-asked free_of.1
      free_of.0 from_a-IsSpelled may_send to_c-IsRcpt to_c-remote
