-- ===== src/Regex/Decide.antt =====
-- A test that decides for every pattern whether a part of a text matches it.
use whalemail.Prelude.{
  ℕ, Bool, true, false, not, ◌&&◌, ◌||◌, ◌≡◌, ◌≢◌, ◌↔◌, refl, sym, ap, ◌∙◌, subst, Option, some,
  List, [], ◌∷◌, ◌++◌, All, arith, inl, inr, Bool-cases,
}
use whalemail.Text.{Text, text_eq, to_ascii_uppercase}
use whalemail.Text.Laws.{text_eq_iff}
use whalemail.Regex.{
  Regex, literal, any_case, plus, star, group, optional, unset, start, finish, then', Matches,
  Finds, IsTest,
}

abbrev is_nil : Text → Bool
is_nil [] = true
is_nil (c ∷ s) = false

abbrev all : (ℕ → Bool) → Text → Bool
all c [] = true
all c (x ∷ s) = c x && all c s

-- The test holds of two texts that the text is cut into.
abbrev cuts : (Text → Text → Bool) → Text → Bool
cuts f [] = f [] []
cuts f (x ∷ s) = f [] (x ∷ s) || cuts (λ u v. f (x ∷ u) v) s

is_nil_iff : (s : Text) → (is_nil s ≡ true) ↔ (s ≡ [])
is_nil_iff [] = (λ e. refl, λ e. refl)
is_nil_iff (c ∷ s) = (λ e. ground arith, λ e. cc e)

not_nil : (s : Text) → is_nil s ≡ false → s ≢ []
not_nil [] e z = cc e
not_nil (c ∷ s) e z = cc z

nil_not : (s : Text) → s ≢ [] → is_nil s ≡ false
nil_not [] n = absurd (n refl)
nil_not (c ∷ s) n = refl

all_iff : (c : ℕ → Bool) (s : Text) → (all c s ≡ true) ↔ All (λ x. c x ≡ true) s
all_iff c [] = (λ e. tt, λ e. refl)
all_iff c (x ∷ s) = (
  λ e. (ground arith, (all_iff c s).0 (ground arith)),
  λ h. ground (arith, h.0, (all_iff c s).1 h.1),
)

abbrev Cuts : (Text → Text → Bool) → Text → Type 0
Cuts f s = (u v : Text) × (s ≡ u ++ v) × (f u v ≡ true)

cuts-found : (f : Text → Text → Bool) (s : Text) → cuts f s ≡ true → Cuts f s
cuts-found f [] e = ([], [], refl, e)
cuts-found f (x ∷ s) e = elim (Bool-cases (f [] (x ∷ s))) [
  | inl y ↦ ([], x ∷ s, refl, y)
  | inr n ↦
      let (u, v, cut, h) = cuts-found (λ u v. f (x ∷ u) v) s (ground arith) in
      (x ∷ u, v, ap (λ t. x ∷ t) cut, h)
]

cuts-append : (f : Text → Text → Bool) (u v : Text) → f u v ≡ true → cuts f (u ++ v) ≡ true
cuts-append f [] [] h = h
cuts-append f [] (x ∷ v) h = ground arith
cuts-append f (x ∷ u) v h = ground (arith, cuts-append (λ u v. f (x ∷ u) v) u v h)

cuts_iff : (f : Text → Text → Bool) (s : Text) → (cuts f s ≡ true) ↔ Cuts f s
cuts_iff f s =
    (cuts-found f s, λ (u, v, cut, h). subst (λ s. cuts f s ≡ true) (sym cut) (cuts-append f u v h))

and_true : {a b : Bool} → (a && b) ≡ true → (a ≡ true) × (b ≡ true)
and_true e = (ground arith, ground arith)

-- the test of a pattern at a place
unfoldable pub matches : Regex → Text → Text → Text → Bool
unfolding text_eq to_ascii_uppercase
matches (literal t) before s after = text_eq s t
matches (any_case t) before s after = text_eq (to_ascii_uppercase s) (to_ascii_uppercase t)
matches (plus c) before s after = not (is_nil s) && all c s
matches (star c) before s after = all c s
matches (group r) before s after = matches r before s after
matches (optional r) before s after = matches r before s after || is_nil s
matches start before s after = is_nil before && is_nil s
matches finish before s after = is_nil after && is_nil s
matches (then' p q) before s after =
    cuts (λ u v. matches p before u (v ++ after) && matches q (before ++ u) v after) s

unfoldable pub finds : Regex → Text → Bool
unfolding matches
finds re s = cuts (λ before rest. cuts (λ m after. matches re before m after) rest) s

abbrev Some : Regex → Text → Text → Text → Type 0
Some re before s after = (gs : List (Option Text)) × Matches re before s after gs

matches_iff :
    (re : Regex) (before s after : Text)
    → (matches re before s after ≡ true) ↔ Some re before s after
unfolding matches Matches
matches_iff (literal t) before s after =
    (λ e. ([], ((text_eq_iff s t).0 e, refl)), λ (gs, h). (text_eq_iff s t).1 h.0)
matches_iff (any_case t) before s after =
    (λ e. ([], ((text_eq_iff _ _).0 e, refl)), λ (gs, h). (text_eq_iff _ _).1 h.0)
matches_iff (plus c) before s after = (
  λ e. ([], (not_nil s (ground arith), (all_iff c s).0 (ground arith), refl)),
  λ (gs, h). ground (arith, nil_not s h.0, (all_iff c s).1 h.1),
)
matches_iff (star c) before s after =
    (λ e. ([], ((all_iff c s).0 e, refl)), λ (gs, h). (all_iff c s).1 h.0)
matches_iff (group r) before s after = (
  λ e. let (hs, h) = (matches_iff r before s after).0 e in (some s ∷ hs, (hs, h, refl)),
  λ (gs, h). (matches_iff r before s after).1 (h.0, h.1),
)
matches_iff (optional r) before s after = (
  λ e. elim (Bool-cases (matches r before s after)) [
    | inl y ↦ let (gs, h) = (matches_iff r before s after).0 y in (gs, inl h)
    | inr n ↦ (unset r, inr ((is_nil_iff s).0 (ground arith), refl))
  ],
  λ (gs, h). elim h [
    | inl k ↦ ground (arith, (matches_iff r before s after).1 (gs, k))
    | inr (e, k) ↦ ground (arith, (is_nil_iff s).1 e)
  ],
)
matches_iff start before s after = (
  λ e. ([], ((is_nil_iff before).0 (ground arith), (is_nil_iff s).0 (ground arith), refl)),
  λ (gs, h). ground (arith, (is_nil_iff before).1 h.0, (is_nil_iff s).1 h.1),
)
matches_iff finish before s after = (
  λ e. ([], ((is_nil_iff after).0 (ground arith), (is_nil_iff s).0 (ground arith), refl)),
  λ (gs, h). ground (arith, (is_nil_iff after).1 h.0, (is_nil_iff s).1 h.1),
)
matches_iff (then' p q) before s after = (
  λ e.
      let (u, v, cut, h) = (cuts_iff _ s).0 e in
      let (hs, hp) = (matches_iff p before u (v ++ after)).0 (and_true h).0 in
      let (ks, hq) = (matches_iff q (before ++ u) v after).0 (and_true h).1 in
      (hs ++ ks, (u, v, hs, ks, cut, refl, hp, hq)),
  λ (gs, (u, v, hs, ks, cut, _, hp, hq)).
      let left = (matches_iff p before u (v ++ after)).1 (hs, hp) in
      let right = (matches_iff q (before ++ u) v after).1 (ks, hq) in
      (cuts_iff _ s).1 (u, v, cut, ground (arith, left, right)),
)

-- The search is a test for its pattern.
pub finds-IsTest : (re : Regex) → IsTest re (finds re)
unfolding finds Finds
finds-IsTest re = record {
  found = λ s e.
      let (before, rest, cut, h) = (cuts_iff _ s).0 e in
      let (m, after, cut', k) = (cuts_iff _ rest).0 h in
      let (gs, j) = (matches_iff re before m after).0 k in
      (gs, (before, m, after, cut ∙ ap (λ r. before ++ r) cut', j));
  complete = λ s gs (before, m, after, cut, j). (cuts_iff _ s).1 (
    before,
    m ++ after,
    cut,
    (cuts_iff _ (m ++ after)).1 (m, after, refl, (matches_iff re before m after).1 (gs, j)),
  );
}
