-- ===== src/Envelope.antt =====
-- src/smtp/envelope.rs. A random `Uuid` is an argument of `Envelope::new`.
pub mod Laws
pub mod Pieces
use whalemail.Prelude.{ℕ, Bool, true, false, Option, none, some, List, [], ◌∷◌}
use whalemail.Text.{Text, text_eq, split}
use whalemail.Config.{Hostname}

pub record MailAddress : Type 0 where
  pub address : Text
  pub local_part : Text
  pub domain : Text
  pub is_local_mailbox : Option Bool
  pub is_local_responsibility : Bool

-- the address of exactly two pieces round `@`
unfoldable pub of_pieces : Text → Hostname → List Text → Option MailAddress
unfolding text_eq
of_pieces s hostname (l ∷ d ∷ []) = some (record {
  address = s;
  local_part = l;
  domain = d;
  is_local_mailbox = none;
  is_local_responsibility = text_eq hostname d;
})
of_pieces s hostname _ = none

abbrev pub at_sign : Text
at_sign = b'@' ∷ []

-- `MailAddress::new`; `none` is `InvalidMailAddress`
unfoldable pub new_address : Text → Hostname → Option MailAddress
unfolding of_pieces split
new_address s hostname = of_pieces s hostname (split s at_sign)

-- `impl PartialEq for MailAddress`
unfoldable pub address_eq : MailAddress → MailAddress → Bool
unfolding text_eq
address_eq a b = text_eq a.address b.address

-- an answer is kept in the cache
abbrev pub filled : MailAddress → Option Bool → Option Bool × MailAddress
filled a none = (none, a)
filled a (some r) = (some r, record a { is_local_mailbox = some r })

-- `cached_is_local`: the answer, `none` if the database panics, and the address with its cache filled
unfoldable pub cached_is_local :
    (MailAddress → Option Bool) → MailAddress → Option Bool × MailAddress
cached_is_local is_local a = elim a.is_local_mailbox [
  | some res ↦ (some res, a)
  | none ↦ filled a (is_local a)
]

pub record Envelope : Type 0 where
  pub sender : MailAddress
  pub recipients : List MailAddress
  pub body : Text
  pub uuid : ℕ
