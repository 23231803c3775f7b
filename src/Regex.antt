-- ===== src/Regex.antt =====
-- The regular expressions of src/smtp/server.rs and src/auth.rs as syntax, and the texts that they
-- match as the documentation of the crate `regex` has it. The crate's matcher is a parameter.
pub mod Address
pub mod Decide
use whalemail.Prelude.{
  ℕ, Bool, true, not, ◌≡◌, ◌≢◌, ◌⊎◌, Option, none, some, List, [], ◌∷◌, ◌++◌, All, ◌==◌,
}
use whalemail.Text.{Text, codes, to_ascii_uppercase}

-- The items are a text as it stands, a text under `(?i)` whose letters have no other forms than those
-- of ASCII (K and S have), one or more and any number of
-- characters of a class, a capturing group, the two anchors,
-- a sequence and a part that may be left out.
pub data Regex : Type 0 where
  literal any_case : Text → Regex
  plus star : (ℕ → Bool) → Regex
  group optional : Regex → Regex
  start finish : Regex
  then' : Regex → Regex → Regex

-- the groups of a part that is left out
unfoldable pub unset : Regex → List (Option Text)
unset (group r) = none ∷ unset r
unset (optional r) = unset r
unset (then' p q) = unset p ++ unset q
unset _ = []

-- The item matches a text that stands between two others, with the texts of its groups.
unfoldable pub Matches : Regex → Text → Text → Text → List (Option Text) → Type 0
unfolding to_ascii_uppercase unset
Matches (literal t) before s after gs = (s ≡ t) × (gs ≡ [])
Matches (any_case t) before s after gs = (to_ascii_uppercase s ≡ to_ascii_uppercase t) × (gs ≡ [])
Matches (plus c) before s after gs = (s ≢ []) × All (λ x. c x ≡ true) s × (gs ≡ [])
Matches (star c) before s after gs = All (λ x. c x ≡ true) s × (gs ≡ [])
Matches (group r) before s after gs =
    (hs : List (Option Text)) × Matches r before s after hs × (gs ≡ some s ∷ hs)
Matches (optional r) before s after gs = Matches r before s after gs ⊎ ((s ≡ []) × (gs ≡ unset r))
Matches start before s after gs = (before ≡ []) × (s ≡ []) × (gs ≡ [])
Matches finish before s after gs = (after ≡ []) × (s ≡ []) × (gs ≡ [])
Matches (then' p q) before s after gs =
    (u v : Text) × (hs ks : List (Option Text)) × (s ≡ u ++ v)
    × (gs ≡ hs ++ ks)
    × Matches p before u (v ++ after) hs
    × Matches q (before ++ u) v after ks

-- a part of the text matches
unfoldable pub Finds : Regex → Text → List (Option Text) → Type 0
unfolding Matches
Finds re s gs =
    (before m after : Text) × (s ≡ before ++ (m ++ after)) × Matches re before m after gs

-- `[^c]`
abbrev pub other_than : ℕ → ℕ → Bool
other_than c x = not (x == c)

-- The captures of a pattern with one group: of a match of the text, if it has one.
pub record IsCaptures (re : Regex) (captures : Text → Option (Option Text)) : Type 0 where
  pub found : (s : Text) (g : Option Text) → captures s ≡ some g → Finds re s (g ∷ [])
  pub complete : (s : Text) (gs : List (Option Text)) → Finds re s gs → captures s ≢ none

-- `Regex::is_match`
pub record IsTest (re : Regex) (is_match : Text → Bool) : Type 0 where
  pub found : (s : Text) → is_match s ≡ true → (gs : List (Option Text)) × Finds re s gs
  pub complete : (s : Text) (gs : List (Option Text)) → Finds re s gs → is_match s ≡ true
