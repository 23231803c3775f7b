-- ===== src/Tests/Plain.antt =====
-- A message that is decoded, at a concrete input.
use whalemail.Prelude.{
  ℕ, ◌≡◌, refl, Option, none, some, List, if◌then◌else◌, Bool-cases, inl, inr, arith, subst, sym,
}
use whalemail.Text.{Text, codes, text_eq}
use whalemail.Text.Laws.{eq_of_text_eq}
use whalemail.Text.Utf8.{from_utf8}
use whalemail.Regex.Decide.{finds, finds-IsTest}
use whalemail.Auth.{try_base64_plain_credentials}
use whalemail.Auth.Plain.{plain_auth_msg, IsNulFree, try_base64_plain_credentials-eq}
use whalemail.Tests.Library.{test_sasl, test_db, host}

abbrev encoded : Text
encoded = codes "YQBhAHB3"

encoded-IsNulFree : IsNulFree encoded
encoded-IsNulFree = (
  λ e. omega arith,
  (
    λ e. omega arith,
    (
      λ e. omega arith,
      (
        λ e. omega arith,
        (λ e. omega arith, (λ e. omega arith, (λ e. omega arith, (λ e. omega arith, tt)))),
      ),
    ),
  ),
)

-- a decoder of a single text
decode_one : Text → Option (List ℕ)
unfolding text_eq
decode_one t = if text_eq t encoded then some (codes "a\0a\0pw") else none

decode_one-IsNulFree : (t : Text) (bytes : List ℕ) → decode_one t ≡ some bytes → IsNulFree t
unfolding decode_one
decode_one-IsNulFree t bytes e = elim (Bool-cases (text_eq t encoded)) [
  | inl y ↦ subst IsNulFree (sym (eq_of_text_eq t encoded y)) encoded-IsNulFree
  | inr n ↦ ground arith
]

try_base64_plain_credentials-eq_example :
    try_base64_plain_credentials test_sasl test_db host (finds plain_auth_msg) decode_one encoded
    ≡ codes "a\0a\0pw"
unfolding decode_one from_utf8
try_base64_plain_credentials-eq_example =
    (try_base64_plain_credentials-eq test_sasl test_db host (finds plain_auth_msg) decode_one
        encoded (finds-IsTest plain_auth_msg) decode_one-IsNulFree).0
      (codes "a\0a\0pw") (codes "a\0a\0pw") refl refl
