-- ===== src/Tests/Deliveries.antt =====
-- The theorems on bodies, deliveries, credentials and the configuration at concrete inputs.
use whalemail.Prelude.{
  none, Option, if◌then◌else◌, ◌&&◌, ◌≡◌, refl, true, not, some, List, [], ◌∷◌, ◌++◌,
}
use whalemail.Prelude.Outcome.{ok}
use whalemail.Prelude.Action.{failed}
use whalemail.Prelude.Keeps.{Returns}
use whalemail.Text.{Text, codes, text_eq, trim}
use whalemail.Text.Utf8.{from_utf8, utf8_from}
use whalemail.User.{Authorized}
use whalemail.UserDb.{db_error}
use whalemail.Command.{new_command}
use whalemail.MultiMap.{is_some, has, Distinct}
use whalemail.Transparency.{contains_mail_end, mail_end}
use whalemail.Transparency.Stuffing.{stuff, next_place}
use whalemail.Auth.{validate, new_authorized, resolve_identity}
use whalemail.Auth.Session.{Credentials}
use whalemail.Auth.Callback.{Stands, validate-Stands}
use whalemail.Config.Load.{is_ok, load, is_ok-load}
use whalemail.Smtp.State.{DataState, data'}
use whalemail.Smtp.Delivery.{no_such_user, is_nil, deliver_mail, deliver_local_mail}
use whalemail.Smtp.Delivery.Local.{HasHome, deliver_local_mail-unknown}
use whalemail.Smtp.Receive.{finish_mail}
use whalemail.Smtp.Handle.{handle}
use whalemail.Smtp.Body.{GoesOn, Ends, handle_all, handle_all-stuff}
use whalemail.Smtp.Outgoing.Groups.{remote_to, added, deliver_mail-queue}
use whalemail.Command.{Command, new_command}
use whalemail.Smtp.Phases.{Next, phase_of}
use whalemail.Smtp.Phases.Order.{handle-Next}
use whalemail.Tests.Maps.{assoc_map-IsMultiMap}
use whalemail.Tests.Library.{TestSession, test_crates, test_config, host, test_db, test_env}
use whalemail.Tests.Mails.{sender, local_recipient, sending, letter}

-- the body of which a period at a line start is sent twice
abbrev pub content : Text
content = codes "x\r\n.y"

abbrev pub first_part : Text
first_part = codes "x\r\n"

abbrev pub last_part : Text
last_part = codes "..y\r\n.\r\n"

pub first_part-GoesOn : GoesOn first_part
unfolding new_command contains_mail_end
first_part-GoesOn = (λ e. cc, refl)

pub last_part-Ends : Ends last_part
unfolding new_command contains_mail_end
last_part-Ends = (λ e. cc, refl)

-- the state behind DATA
abbrev ready : DataState
ready = record sending { mail_body = [] }

handle_all-stuff_example :
    handle_all test_crates test_config test_db (data' ready) (first_part ∷ last_part ∷ []) test_env
    ≡ finish_mail test_crates test_db host ready (content ++ mail_end) test_env
handle_all-stuff_example =
    handle_all-stuff test_crates test_config test_db ready content (first_part ∷ []) last_part refl
      (first_part-GoesOn, tt) last_part-Ends (unfold stuff next_place in refl) test_env

deliver_mail-queue_example :
    (ds : List Text) × Distinct ds
    × ((d : Text) → has d ds ≡ not (is_nil (remote_to letter.recipients d)))
    × ((deliver_mail test_crates test_db letter test_env).1.queue
        ≡ added test_crates test_db assoc_map-IsMultiMap test_env.queue letter ds)
deliver_mail-queue_example =
    deliver_mail-queue test_crates test_db assoc_map-IsMultiMap letter test_env

local_recipient-HasHome : HasHome test_db local_recipient
local_recipient-HasHome = (codes "/a", unfold text_eq in refl)

deliver_local_mail-unknown_example :
    deliver_local_mail test_crates test_db letter (local_recipient ∷ sender ∷ []) test_env
    ≡ (failed (no_such_user (codes "b@x.tld")), test_env)
deliver_local_mail-unknown_example =
    deliver_local_mail-unknown test_crates test_db letter test_env (local_recipient ∷ []) sender []
      db_error (local_recipient-HasHome, tt) (unfold text_eq in refl)

abbrev credentials : Credentials
credentials = record {
  authzid = some [];
  authid = some (codes "a@h.tld");
  password = some (codes "pw");
}

abbrev user_a : Authorized
user_a = record { hostname = host; identity = codes "a@h.tld"; username = codes "a@h.tld" }

validate-Stands_example :
    (password : Text) × Stands host credentials user_a password
    × (test_db.authenticate user_a password ≡ ok true)
validate-Stands_example =
    validate-Stands test_db host credentials user_a
      (unfold validate new_authorized resolve_identity from_utf8 utf8_from text_eq trim in refl)

handle-Next_example :
    Returns
      (λ s.
        (c : Command) × (new_command last_part ≡ some c)
        × Next c.verb (phase_of {Session = TestSession} (data' ready)) (phase_of s))
      (handle test_crates test_config test_db (data' ready) last_part test_env).0
handle-Next_example = handle-Next test_crates test_config test_db (data' ready) last_part test_env

-- a file without a password for the database
abbrev conf : Text → Option Text
conf name = if text_eq name (codes "postgres_password") then none else some (codes "v")

is_ok-load_example : is_ok conf (load conf) ≡ (
    is_some (conf (codes "user_maildir_path"))
    && (is_some (conf (codes "postgres_database"))
        && (is_some (conf (codes "postgres_username"))
            && is_some (conf (codes "postgres_password")))))
is_ok-load_example = is_ok-load conf
