-- ===== src/Tests/Library.antt =====
-- Concrete matchers, SASL sessions, a user database and an environment.
use whalemail.Prelude.{
  ◌+◌, Bool, false, ◌==◌, ◌&&◌, not, ◌≡◌, refl, Option, none, some, List, [], ◌∷◌, ◌++◌,
  if◌then◌else◌,
}
use mathlib.Core.Option
use whalemail.Prelude.Outcome.{Result, ok}
use whalemail.Prelude.Action.{done, failed}
use whalemail.Text.{Text, codes, text_eq, split, trim, ascii_upper}
use whalemail.Text.Utf8.{as_bytes}
use whalemail.Config.{Config}
use whalemail.User.{Authorized}
use whalemail.UserDb.{UserDb, db_error}
use whalemail.Envelope.{MailAddress}
use whalemail.Maildir.{Disk}
use whalemail.Auth.Session.{
  Credentials, Validate, Validated, finalized, not_finalized, validation_error, Step, running,
  finished_unsent, step_error, Sasl, IsSasl, AuthError,
}
use whalemail.Smtp.Crates.{Crates, Env}
use whalemail.Tests.Maps.{Assoc, assoc_map}

-- what follows a word in any case
unfoldable pub strip_word : Text → Text → Option Text
unfolding ascii_upper
strip_word [] s = some s
strip_word (w ∷ word) [] = none
strip_word (w ∷ word) (c ∷ s) = if ascii_upper c == ascii_upper w then strip_word word s else none

-- the text before `>\r\n` at the end
unfoldable pub take_address : Text → Option Text
unfolding text_eq
take_address [] = none
take_address (c ∷ s) =
    if text_eq (c ∷ s) (codes ">\r\n")
    then some []
    else if c == b'>'
    then none
    else Option.map (λ t. c ∷ t) (take_address s)

abbrev pub group_of : Option Text → Option (Option Text)
group_of (some (c ∷ t)) = some (some (c ∷ t))
group_of _ = none

-- a word in any case, an address in brackets and a line end
unfoldable pub match_address : Text → Text → Option (Option Text)
unfolding strip_word take_address
match_address word s = elim (strip_word word s) [
  | none ↦ none
  | some rest ↦ group_of (take_address rest)
]

-- `AUTH `, a mechanism and its argument
abbrev pub auth_words : List Text → Option (Option Text × Option Text)
auth_words (w ∷ m ∷ []) = if text_eq w (codes "AUTH") then some (some m, none) else none
auth_words (w ∷ m ∷ a ∷ []) = if text_eq w (codes "AUTH") then some (some m, some a) else none
auth_words _ = none

unfoldable pub match_auth : Text → Option (Option Text × Option Text)
unfolding text_eq split trim
match_auth s = auth_words (split (trim s) (codes " "))

-- a PLAIN session: fresh, with accepted credentials, or over
pub data TestSession : Type 0 where
  fresh over : TestSession
  accepted : Authorized → TestSession

abbrev pub zero_byte : Text
zero_byte = 0 ∷ []

-- the callback's answer
abbrev pub judged : Validate → Credentials → Step × List Text × TestSession
judged v c = elim (v c) [
  | finalized a ↦ (finished_unsent, [], accepted a)
  | not_finalized ↦ (finished_unsent, [], over)
  | validation_error ↦ (step_error, [], over)
]

abbrev pub plain_parts : Validate → List Text → Step × List Text × TestSession
plain_parts v (z ∷ u ∷ p ∷ []) =
    judged v (record { authzid = some z; authid = some u; password = some (as_bytes p) })
plain_parts v _ = (step_error, [], over)

unfoldable pub test_step : Validate → TestSession → Option Text → Step × List Text × TestSession
unfolding split as_bytes
test_step v fresh (some s) = plain_parts v (split s zero_byte)
test_step v fresh none = (running, codes "VXNlciBOYW1lAA==" ∷ [], fresh)
test_step v s i = (step_error, [], over)

unfoldable pub test_validation : TestSession → Option (Result AuthError Authorized) × TestSession
test_validation (accepted a) = (some (ok a), over)
test_validation s = (none, s)

abbrev pub test_sasl : Sasl TestSession
test_sasl = record {
  parse_mechname = λ s. some s;
  start_suggested = λ s. some fresh;
  step = test_step;
  step64 = test_step;
  validation = test_validation;
}

abbrev pub TestHolds : Validate → TestSession → Type 0
TestHolds v (accepted a) = (c : Credentials) × (v c ≡ finalized a)
TestHolds v _ = Unit

judged-Holds : (v : Validate) (c : Credentials) → TestHolds v (judged v c).2
judged-Holds v c = go (v c) refl
  where
    go : (w : Validated) → v c ≡ w → TestHolds v (judged v c).2
    go (finalized a) e = rw (e, judged) (c, e)
    go not_finalized e = rw (e, judged) tt
    go validation_error e = rw (e, judged) tt

plain_parts-Holds : (v : Validate) (cs : List Text) → TestHolds v (plain_parts v cs).2
plain_parts-Holds v (z ∷ u ∷ p ∷ []) = judged-Holds v _
plain_parts-Holds v _ = tt

test_step-Holds :
    (v : Validate) (s : TestSession) (i : Option Text)
    → TestHolds v s
    → TestHolds v (test_step v s i).2
unfolding test_step
test_step-Holds v fresh (some s) h = plain_parts-Holds v (split s zero_byte)
test_step-Holds v fresh none h = tt
test_step-Holds v _ i h = tt

validated-Holds :
    (v : Validate) (s : TestSession) (a : Authorized)
    → TestHolds v s
    → (test_validation s).0 ≡ some (ok a)
    → (c : Credentials) × (v c ≡ finalized a)
unfolding test_validation
validated-Holds v (accepted b) a h e = (h.0, cc (h.1))
validated-Holds v _ a h e = cc

started-Holds : (v : Validate) (s : TestSession) → some fresh ≡ some s → TestHolds v s
started-Holds v (accepted a) e = cc
started-Holds v _ e = tt

pub test_sasl-IsSasl : IsSasl test_sasl
test_sasl-IsSasl = record {
  Holds = TestHolds;
  started = λ v name s e. started-Holds v s e;
  stepped = test_step-Holds;
  stepped64 = test_step-Holds;
  validated = validated-Holds;
}

abbrev pub is_secret : List Text → Bool
is_secret (z ∷ u ∷ p ∷ []) = not (text_eq z []) && not (text_eq u []) && not (text_eq p [])
is_secret _ = false

abbrev pub test_crates : Crates TestSession (Assoc MailAddress)
test_crates = record {
  auth_captures = match_auth;
  mail_captures = match_address (codes "MAIL FROM:<");
  rcpt_captures = match_address (codes "RCPT TO:<");
  plain_auth_msg = λ s. is_secret (split s zero_byte);
  base64_decode = λ s. none;
  sasl = test_sasl;
  multimap = assoc_map;
  path_push = λ a b. a ++ (codes "/" ++ b);
  unix_time = λ n. some 1700000000;
  new_v4 = λ n. (n, n + 1);
}

abbrev pub host : Text
host = codes "h.tld"

abbrev pub test_config : Config
test_config = record {
  hostname = host;
  bind_ip = [];
  bind_ip_tls = [];
  cert_dir = none;
  trusted_ca_cert_dir = none;
  log_level = [];
  maildir_config = record { user_maildir_path = codes "%{mailboxhome}/%{user}" };
  userdb_config = record {
    hostname = host;
    postgres_database = [];
    postgres_username = [];
    postgres_password = [];
  };
}

-- the user a@h.tld with the password pw, and a mailbox for it
abbrev pub test_db : UserDb
test_db = record {
  authenticate = λ a p. ok (text_eq a.identity (codes "a@h.tld") && text_eq p (codes "pw"));
  get_mailboxhome =
      λ r. if text_eq r.address (codes "a@h.tld") then done (codes "/a") else failed db_error;
  is_local_mailbox = λ r. some (text_eq r.address (codes "a@h.tld"));
}

-- a database that accepts nobody
abbrev pub closed_db : UserDb
closed_db = record {
  authenticate = λ a p. ok false;
  get_mailboxhome = λ r. failed db_error;
  is_local_mailbox = λ r. some false;
}

abbrev pub test_disk : Disk
test_disk = record { calls = []; answers = λ n. ok tt; instant = λ n. 5000000 }

-- every write succeeds
abbrev pub test_env : Env
test_env = record {
  socket = record { written = []; answers = λ n. ok 1000 };
  storage = record {
    hostname = host;
    config = record { user_maildir_path = codes "%{mailboxhome}/%{user}" };
    base_instant = 0;
    disk = test_disk;
  };
  queue = record { entries = [] };
  rng = 0;
}

-- nothing is asked of a fresh session
pub fresh-Holds : (v : Validate) → test_sasl-IsSasl.Holds v fresh
unfolding test_sasl-IsSasl
fresh-Holds v = tt
