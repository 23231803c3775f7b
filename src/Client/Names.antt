-- ===== src/Client/Names.antt =====
-- The hosts that are tried are those of the name server's answer.
use whalemail.Prelude.{
  ℕ, true, false, Bool, ◌&&◌, ◌≡◌, refl, ◌∙◌, List, [], ◌∷◌, map, All, arith, ◌==◌, if◌then◌else◌,
  inl, inr, Bool-cases,
}
use whalemail.Text.{Text}
use whalemail.Client.Order.{with_preference}
use mathlib.Core.Bool.{Bool-set}
use mathlib.Core.List.{Perm, foldr}
use mathlib.Core.List.Perm as Perms

module _ (test : Text → Bool) where
  abbrev Passes : Text → Type 0
  Passes host = test host ≡ true

  abbrev both : Text → Bool → Bool
  both host b = test host && b

  all_of_All : (hosts : List Text) → All Passes hosts → foldr both true hosts ≡ true
  all_of_All [] h = refl
  all_of_All (host ∷ hosts) (h, hs) = ground (arith, h, all_of_All hosts hs)

  All_of_all : (hosts : List Text) → foldr both true hosts ≡ true → All Passes hosts
  All_of_all [] h = tt
  All_of_all (host ∷ hosts) h = (ground (arith, h), All_of_all hosts (ground (arith, h)))

  All-Perm : (xs ys : List Text) → Perm xs ys → All Passes ys → All Passes xs
  All-Perm xs ys p h =
      All_of_all xs (Perms.foldr-eq Bool-set both (λ a b n. ground arith) p true ∙ all_of_All ys h)

  All-with_preference :
      (r : List (ℕ × Text)) (k : ℕ)
      → All Passes (map (λ x. x.1) r)
      → All Passes (with_preference r k)
  unfolding with_preference
  All-with_preference [] k h = tt
  All-with_preference ((p, host) ∷ r) k (h, hs) = elim (Bool-cases (p == k)) [
    | inl y ↦ rw y (h, All-with_preference r k hs)
    | inr n ↦ rw n (All-with_preference r k hs)
  ]

  preferred-head :
      (p : ℕ) (host : Text) (l : List (ℕ × Text)) (b : Bool)
      → b ≡ true
      → All Passes (if b then host ∷ with_preference l p else with_preference l p)
      → Passes host
  preferred-head p host l true e h = h.0
  preferred-head p host l false e h = absurd (cc e)

  preferred-tail :
      (k : ℕ) (host : Text) (l : List (ℕ × Text)) (b : Bool)
      → All Passes (if b then host ∷ with_preference l k else with_preference l k)
      → All Passes (with_preference l k)
  preferred-tail k host l true h = h.1
  preferred-tail k host l false h = h

  All-preferences :
      (l : List (ℕ × Text))
      → ((k : ℕ) → All Passes (with_preference l k))
      → All Passes (map (λ x. x.1) l)
  unfolding with_preference
  All-preferences [] h = tt
  All-preferences ((p, host) ∷ l) h = (
    preferred-head p host l (p == p) (ground arith) (h p),
    All-preferences l (λ k. preferred-tail k host l (p == k) (h k)),
  )

  pub names :
      (l r : List (ℕ × Text))
      → ((k : ℕ) → Perm (with_preference l k) (with_preference r k))
      → All Passes (map (λ x. x.1) r)
      → All Passes (map (λ x. x.1) l)
  names l r same h = All-preferences l λ k. All-Perm _ _ (same k) (All-with_preference r k h)
