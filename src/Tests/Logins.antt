-- ===== src/Tests/Logins.antt =====
-- AUTH in lower case, at a concrete input.
use whalemail.Prelude.{
  ◌≡◌, refl, sym, subst, ap, ◌∙◌, Option, none, some, [], ◌∷◌, ◌++◌, true, if◌then◌else◌, arith,
  Bool-cases, inl, inr,
}
use whalemail.Prelude.Action.{pure}
use whalemail.Text.{Text, codes, text_eq, starts_with, contains, is_whitespace}
use whalemail.Text.Laws.{eq_of_text_eq}
use whalemail.Envelope.{MailAddress}
use whalemail.Regex.{Finds, Matches, unset}
use whalemail.Command.{CommandVerb, new_command}
use whalemail.Smtp.Crates.{Crates}
use whalemail.Smtp.State.{ehlo, bad_mechanism}
use whalemail.Smtp.Login.{settle_auth}
use whalemail.Smtp.Handle.{handle}
use whalemail.Smtp.Transaction.{IsCommand}
use whalemail.Smtp.Patterns.Login.{auth_cmd, HasAuth, handle-lower_case}
use whalemail.Tests.Maps.{Assoc}
use whalemail.Tests.Library.{TestSession, test_crates, test_config, test_db}

abbrev auth_plain : Text
auth_plain = codes "AUTH PLAIN\r\n"

-- the captures of a single message
unfoldable match_plain : Text → Option (Option Text × Option Text)
unfolding text_eq
match_plain s = if text_eq s auth_plain then some (some (codes "PLAIN"), none) else none

auth_plain-Finds : Finds auth_cmd auth_plain (some (codes "PLAIN") ∷ none ∷ [])
unfolding Finds Matches auth_cmd is_whitespace unset
auth_plain-Finds = (
  [],
  auth_plain,
  [],
  refl,
  (
    codes "AUTH ",
    codes "PLAIN\r\n",
    [],
    some (codes "PLAIN") ∷ none ∷ [],
    refl,
    refl,
    (refl, refl),
    (
      codes "PLAIN",
      codes "\r\n",
      some (codes "PLAIN") ∷ [],
      none ∷ [],
      refl,
      refl,
      ([], ((refl, (refl, (refl, (refl, (refl, tt))))), refl), refl),
      (
        codes "\r\n",
        [],
        [],
        none ∷ [],
        refl,
        refl,
        ((refl, (refl, tt)), refl),
        (
          [],
          [],
          none ∷ [],
          [],
          refl,
          refl,
          inr (refl, refl),
          ([], [], [], [], refl, refl, (tt, refl), (refl, refl, refl)),
        ),
      ),
    ),
  ),
)

match_plain-found :
    (s : Text) (g h : Option Text) → match_plain s ≡ some (g, h) → Finds auth_cmd s (g ∷ h ∷ [])
unfolding match_plain
match_plain-found s g h e = elim (Bool-cases (text_eq s auth_plain)) [
  | inl y ↦
      subst (λ p. Finds auth_cmd s (p.0 ∷ p.1 ∷ [])) (same y)
        (subst (λ t. Finds auth_cmd t (some (codes "PLAIN") ∷ none ∷ []))
          (sym (eq_of_text_eq s auth_plain y)) auth_plain-Finds)
  | inr n ↦ ground arith
]
  where
    same :
        text_eq s auth_plain ≡ true
        → ◌≡◌ {A = Option Text × Option Text} (some (codes "PLAIN"), none) (g, h)
    same y = ground arith

abbrev plain_crates : Crates TestSession (Assoc MailAddress)
plain_crates = record test_crates { auth_captures = match_plain }

abbrev lower_case : Text
lower_case = codes "auth PLAIN\r\n"

lower_case-IsCommand : IsCommand CommandVerb.auth lower_case
unfolding new_command
lower_case-IsCommand = (_, refl, refl)

contains-append :
    (before after : Text) → contains (before ++ (codes "AUTH " ++ after)) (codes "AUTH ") ≡ true
unfolding contains
contains-append [] after = refl
contains-append (x ∷ before) after = ground (arith, contains-append before after)

lower_case-HasAuth : HasAuth lower_case → ⊥
unfolding contains starts_with
lower_case-HasAuth (before, after, e) =
    cc (ap (λ s. contains s (codes "AUTH ")) e ∙ contains-append before after)

handle-lower_case_example :
    handle plain_crates test_config test_db (ehlo (record { authorized = none })) lower_case
    ≡ settle_auth (pure (bad_mechanism (record { authorized = none })))
handle-lower_case_example =
    handle-lower_case plain_crates test_config test_db (record { authorized = none }) lower_case
      match_plain-found lower_case-IsCommand lower_case-HasAuth
