-- ===== src/Tests/Hosts.antt =====
-- A concrete multimap of hosts by preference, and concrete third-party code for the client.
use whalemail.Prelude.{
  not, ℕ, ◌≡◌, refl, Option, none, some, List, [], ◌∷◌, ◌++◌, map, if◌then◌else◌, ◌==◌, ==_iff,
  arith,
}
use mathlib.Core.List.Perm as Perms
use whalemail.Prelude.Outcome.{ok, err}
use whalemail.Text.{text_eq, Text, codes, starts_with}
use whalemail.Text.Utf8.{as_bytes}
use whalemail.Net.{os}
use whalemail.MultiMap.{values_of, is_some}
use whalemail.Client.Network.{Network}
use whalemail.Client.Hosts.{HostMap, IsHostMap, has}
use whalemail.Client.Popping.{IsFull}
use whalemail.Client.Lookup.{IsShuffle}
use whalemail.Client.Discovery.{ClientCrates}

abbrev pub Table : Type 0
Table = List (ℕ × List Text)

unfoldable pub find_hosts : Table → ℕ → Option (List Text)
find_hosts [] k = none
find_hosts ((j, vs) ∷ m) k = if j == k then some vs else find_hosts m k

unfoldable pub drop_hosts : Table → ℕ → Table
drop_hosts [] k = []
drop_hosts ((j, vs) ∷ m) k = let rest = drop_hosts m k in if j == k then rest else (j, vs) ∷ rest

find-drop :
    (m : Table) (k j : ℕ)
    → find_hosts (drop_hosts m k) j ≡ (if k == j then none else find_hosts m j)
unfolding find_hosts drop_hosts
find-drop [] k j = ground arith
find-drop ((i, vs) ∷ m) k j = ground (arith, find-drop m k j, ==_iff i k, ==_iff i j, ==_iff k j)

has-find : (m : Table) (k : ℕ) → has k (map (λ e. e.0) m) ≡ is_some (find_hosts m k)
unfolding find_hosts
has-find [] k = refl
has-find ((j, vs) ∷ m) k = ground (arith, has-find m k, ==_iff j k, ==_iff k j)

abbrev pub table : HostMap Table
table = record {
  new = [];
  insert = λ m k v. (k, values_of (find_hosts m k) ++ v ∷ []) ∷ drop_hosts m k;
  keys = λ m. map (λ e. e.0) m;
  get_vec = find_hosts;
  set_vec = λ m k vs. (k, vs) ∷ drop_hosts m k;
  remove = drop_hosts;
}

pub table-IsHostMap : IsHostMap table
unfolding find_hosts
table-IsHostMap = record {
  get_vec-new = λ k. refl;
  get_vec-insert = λ m k j v. ground (arith, find-drop m k j);
  get_vec-set_vec = λ m k j vs h. ground (arith, find-drop m k j);
  get_vec-remove = find-drop;
  has-keys = has-find;
}

abbrev pub two_hosts : Table
two_hosts = (20, codes "mx2.y.tld" ∷ []) ∷ (10, codes "mx.y.tld" ∷ []) ∷ []

pub two_hosts-IsFull : IsFull table table-IsHostMap two_hosts
unfolding find_hosts
two_hosts-IsFull = record { some_host = λ k e. ground arith }

abbrev pub test_client : ClientCrates Table (Unit {0}) (Unit {0}) (Unit {0}) (Unit {0})
test_client = record {
  greeting = λ s. if starts_with s (codes "220") then some (some (codes "mx.y.tld")) else none;
  server_name = λ s. not (text_eq s []);
  hosts = table;
  shuffle = λ n vs. vs;
  files = record {
    read_dir = λ s. ok [];
    pem_file_iter = λ s. ok [];
    private_key = λ s. ok tt;
    empty = tt;
    add = λ s c. some tt;
    with_single_cert = λ cs k. some tt;
    path_push = λ a b. a ++ (codes "/" ++ b);
  };
}

pub test_client-IsShuffle : IsShuffle test_client.shuffle
test_client-IsShuffle n vs = Perms.refl _

abbrev pub reply_at : ℕ → Text
reply_at n =
    if n == 4 then codes "220 mx.y.tld" else if n == 12 then codes "354 go on" else codes "250 ok"

-- The name server knows two hosts. Port 465 of the first is closed, its port 25 is open, and it
-- takes the mail of one recipient.
abbrev pub test_net : Network
test_net = record {
  calls = [];
  resolver = λ n. ok tt;
  mx = λ n. ok ((20, codes "mx2.y.tld") ∷ (10, codes "mx.y.tld") ∷ []);
  connects = λ n. if n == 2 then some (err (os 111)) else some (ok tt);
  handshakes = λ n. some (ok tt);
  writes = λ n. ok 1000;
  reads = λ n. some (ok (as_bytes (reply_at n)));
}
