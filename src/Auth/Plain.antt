-- ===== src/Auth/Plain.antt =====
-- src/auth.rs: the pattern of the three parts of a PLAIN message, and when a message is decoded.
use whalemail.Prelude.{
  ℕ, Bool, false, ◌≡◌, ◌≢◌, refl, subst, append_assoc, Option, none, some, List, [], ◌∷◌, ◌++◌, All,
  All-right, Bool-cases, inl, inr,
}
use whalemail.Text.{Text}
use whalemail.Regex.{Regex, literal, plus, then', finish, Matches, Finds, other_than, IsTest}
use whalemail.Text.Utf8.{from_utf8}
use whalemail.Config.{Hostname}
use whalemail.UserDb.{UserDb}
use whalemail.Auth.Session.{Sasl}
use whalemail.Auth.{or_text, try_base64_plain_credentials}

abbrev nul : Text
nul = 0 ∷ []

-- `RE.plain_auth_msg`
unfoldable pub plain_auth_msg : Regex
plain_auth_msg = then' (plus (other_than 0)) (
    then' (literal nul)
      (then' (plus (other_than 0)) (then' (literal nul) (then' (plus (other_than 0)) finish))))

-- a text without the character 0
abbrev pub IsNulFree : Text → Type 0
IsNulFree = All (λ c. c ≢ 0)

plain_auth_msg-ne-IsNulFree :
    (s : Text) (gs : List (Option Text)) → Finds plain_auth_msg s gs → IsNulFree s → ⊥
unfolding Finds Matches plain_auth_msg
plain_auth_msg-ne-IsNulFree s gs
      (before, m, after, cut, (a, _, _, _, m_eq, _, _, (_, rest, _, _, rest_eq, _, (nul_eq, _), _)))
      free =
    (All-right (λ c. c ≢ 0) (before ++ a) (0 ∷ (rest ++ after)) (subst IsNulFree split free)).0 refl
  where
    split : s ≡ (before ++ a) ++ 0 ∷ (rest ++ after)
    split = simp (cut, m_eq, rest_eq, nul_eq, append_assoc)

-- If the test is the one of the pattern and only texts without the character 0 decode as Base64, then
-- the test makes no difference: a message that decodes to UTF-8 text gives that text, one that decodes
-- to other bytes stays as it is, and so does one that does not decode.
pub try_base64_plain_credentials-eq :
    {Session : Type 0} (sasl : Sasl Session) (db : UserDb) (hostname : Hostname)
    (is_match : Text → Bool) (decode : Text → Option (List ℕ)) (s : Text)
    → IsTest plain_auth_msg is_match
    → ((t : Text) (bytes : List ℕ) → decode t ≡ some bytes → IsNulFree t)
    → ((bytes : List ℕ) (t : Text)
        → decode s ≡ some bytes
        → from_utf8 bytes ≡ some t
        → try_base64_plain_credentials sasl db hostname is_match decode s ≡ t)
      × ((bytes : List ℕ)
          → decode s ≡ some bytes
          → from_utf8 bytes ≡ none
          → try_base64_plain_credentials sasl db hostname is_match decode s ≡ s)
      × (decode s ≡ none → try_base64_plain_credentials sasl db hostname is_match decode s ≡ s)
unfolding try_base64_plain_credentials
try_base64_plain_credentials-eq sasl db hostname is_match decode s documented alphabet = (
  λ bytes t d u. rw (unmatched bytes d, d, try_base64_plain_credentials, u, or_text) refl,
  λ bytes d u. rw (unmatched bytes d, d, try_base64_plain_credentials, u, or_text) refl,
  λ d. elim (Bool-cases (is_match s)) [
    | inl y ↦ rw (y, try_base64_plain_credentials) refl
    | inr n ↦ rw (n, d, try_base64_plain_credentials) refl
  ],
)
  where
    unmatched : (bytes : List ℕ) → decode s ≡ some bytes → is_match s ≡ false
    unmatched bytes d = elim (Bool-cases (is_match s)) [
      | inr n ↦ n
      | inl y ↦
          let (gs, f) = documented.found s y in
          absurd (plain_auth_msg-ne-IsNulFree s gs f (alphabet s bytes d))
    ]
