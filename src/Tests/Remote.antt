-- ===== src/Tests/Remote.antt =====
-- The theorems on the client at concrete inputs.
use whalemail.Prelude.{
  ℕ, ◌+◌, ◌*◌, ◌≤◌, ◌≡◌, refl, some, List, [], ◌∷◌, map, reverse, length, arith, inl,
}
use mathlib.Core.List.{Perm}
use whalemail.Prelude.Outcome.{ok}
use whalemail.Prelude.Action.{done}
use whalemail.Text.{Text, codes, starts_with, byte_length, utf8_len}
use whalemail.Text.Utf8.{as_bytes, utf8_encode}
use whalemail.Text.Lossy.{from_utf8_lossy, lossy_from}
use whalemail.MultiMap.{values_of}
use whalemail.Client.Network.{tcp, Connection, build_resolver, mx_lookup, Network, log, text_of}
use whalemail.Client.Session.{run}
use whalemail.Client.Transcript.{Wrote, script, run-Wrote}
use whalemail.Client.Hosts.{pop_host}
use whalemail.Client.Popping.{Popped, pop_host-Popped}
use whalemail.Client.Discovery.{total, probe_all, discover_connection, deliver}
use whalemail.Client.Order.{with_preference, Ordered, try_hosts}
use whalemail.Client.Found.{probe_all-try_hosts, discover_connection-try_hosts}
use whalemail.Client.Bounds.{hosts_in, answer_in, deliver-calls}
use whalemail.Client.Success.{Answered, dialogue, run-Answered}
use whalemail.Smtp.Session.{input_text}
use whalemail.Smtp.Reading.{input_text-as_bytes}
use whalemail.Tests.Library.{test_config}
use whalemail.Tests.Mails.{sender, letter}
use whalemail.Tests.Hosts.{
  table, table-IsHostMap, two_hosts, two_hosts-IsFull, test_client, test_client-IsShuffle, test_net,
}

abbrev test_conn : Connection
test_conn = record { security = tcp; host = codes "mx.y.tld" }

run-Wrote_example :
    Wrote test_conn
      (script test_conn test_config letter (sender ∷ []))
      (codes "QUIT\r\n" ∷ [])
      test_net
      (run test_conn test_config letter (sender ∷ []) test_net)
run-Wrote_example = run-Wrote test_conn test_config letter (sender ∷ []) test_net

pop_host-Popped_example : Popped table table-IsHostMap two_hosts (pop_host table two_hosts)
pop_host-Popped_example = pop_host-Popped table table-IsHostMap two_hosts two_hosts-IsFull

probe_all-try_hosts_example :
    (l : List (ℕ × Text)) × Ordered l
    × (length l ≤ total table two_hosts (table.keys two_hosts))
    × ((k : ℕ) → with_preference l k ≡ reverse (values_of (table.get_vec two_hosts k)))
    × ((w : Network)
        → probe_all test_client test_config two_hosts w
          ≡ try_hosts test_client test_config (map (λ x. x.1) l) w)
probe_all-try_hosts_example =
    probe_all-try_hosts test_client table-IsHostMap test_config two_hosts two_hosts-IsFull

discover_connection-try_hosts_example :
    (l : List (ℕ × Text)) × Ordered l
    × ((k : ℕ)
        → Perm
            (with_preference l k)
            (with_preference ((20, codes "mx2.y.tld") ∷ (10, codes "mx.y.tld") ∷ []) k))
    × (discover_connection test_client test_config (codes "y.tld") test_net
        ≡ try_hosts test_client test_config
            (map (λ x. x.1) l)
            (log (mx_lookup (codes "y.tld")) (log build_resolver test_net)))
discover_connection-try_hosts_example =
    discover_connection-try_hosts test_client table-IsHostMap test_config test_client-IsShuffle
      (codes "y.tld") test_net ((20, codes "mx2.y.tld") ∷ (10, codes "mx.y.tld") ∷ []) refl refl

deliver-calls_example :
    length (deliver test_client test_config letter (sender ∷ []) test_net).1.calls
    ≤ length test_net.calls
      + (11
          + 5
            * length (hosts_in test_client test_config (answer_in test_client test_config test_net))
          + 2 * length (sender ∷ []))
deliver-calls_example =
    deliver-calls test_client test_config table-IsHostMap test_client-IsShuffle letter (sender ∷ [])
      test_net

-- the network once the greeting is read
abbrev greeted_net : Network
greeted_net = record test_net {
  calls = build_resolver ∷ build_resolver ∷ build_resolver ∷ build_resolver ∷ build_resolver ∷ [];
}

greeted_net-Answered : Answered greeted_net 5 (dialogue test_conn test_config letter (sender ∷ []))
unfolding starts_with byte_length utf8_len from_utf8_lossy lossy_from as_bytes utf8_encode
greeted_net-Answered = (
  (1000, refl, omega arith),
  (_, _, refl, refl),
  (
    (1000, refl, omega arith),
    (_, _, refl, refl),
    (
      (1000, refl, omega arith),
      (_, _, refl, refl),
      (
        (1000, refl, omega arith),
        (_, _, refl, refl),
        ((1000, refl, omega arith), (_, _, refl, refl), tt),
      ),
    ),
  ),
)

run-Answered_example : (run test_conn test_config letter (sender ∷ []) greeted_net).0 ≡ done tt
run-Answered_example =
    run-Answered test_conn test_config letter (sender ∷ []) greeted_net greeted_net-Answered

input_text-as_bytes_example :
    (input_text (as_bytes (codes "é")) ≡ codes "é")
    × (text_of (some (ok (as_bytes (codes "é")))) ≡ some (ok (codes "é")))
input_text-as_bytes_example = input_text-as_bytes (codes "é") (inl (omega arith), tt)
