-- ===== src/Prelude/Lists.antt =====
-- Lists over the native numbers, and predicates on all their elements.
use Prim.Native.Nat.{ℕ, suc, ◌+◌}
use mathlib.Core.Path.{◌≡◌, refl}
use mathlib.Core.Logic.{inl, inr}
use mathlib.Core.Option.{Option, none, some}
use whalemail.Prelude.Tests.{Option-cases}
use mathlib.Core.List.{List, [], ◌∷◌, ◌++◌}
use native.Mathlib.Omega.{arith}

module _ {ℓ} {A : Type ℓ} where
  abbrev pub length : List A → ℕ
  length [] = 0
  length (x ∷ xs) = suc (length xs)

  pub length-append : (xs ys : List A) → length (xs ++ ys) ≡ length xs + length ys
  length-append [] ys = omega arith
  length-append (x ∷ xs) ys = omega (arith, length-append xs ys)

  -- Vec::pop: the last element, and those before it
  unfoldable pub pop_last : List A → Option (A × List A)
  pop_last [] = none
  pop_last (x ∷ xs) = elim (pop_last xs) [
    | none ↦ some (x, [])
    | some (l, rest) ↦ some (l, x ∷ rest)
  ]

  pub pop_last-append : (xs : List A) (x : A) → pop_last (xs ++ x ∷ []) ≡ some (x, xs)
  unfolding pop_last
  pop_last-append [] x = refl
  pop_last-append (y ∷ xs) x = ground (arith, pop_last-append xs x)

  pub pop_last-nil : (xs : List A) → pop_last xs ≡ none → xs ≡ []
  unfolding pop_last
  pop_last-nil [] e = refl
  pop_last-nil (x ∷ xs) e = elim (Option-cases (pop_last xs)) [
    | inl n ↦ ground arith
    | inr (p, q) ↦ ground arith
  ]

  pub pop_last-eq :
      (xs : List A) {x : A} {rest : List A} → pop_last xs ≡ some (x, rest) → xs ≡ rest ++ x ∷ []
  unfolding pop_last
  pop_last-eq [] e = cc
  pop_last-eq (y ∷ xs) e = elim (Option-cases (pop_last xs)) [
    | inl n ↦ ground (arith, pop_last-nil xs n)
    | inr ((l, r), p) ↦ ground (arith, pop_last-eq xs p)
  ]

  abbrev pub flatten : List (List A) → List A
  flatten [] = []
  flatten (xs ∷ xss) = xs ++ flatten xss

module _ {ℓ κ} {A : Type ℓ} (P : A → Type κ) where
  abbrev pub All : List A → Type κ
  All [] = Unit
  All (x ∷ xs) = P x × All xs

  pub All-append : (xs ys : List A) → All xs → All ys → All (xs ++ ys)
  All-append [] ys _ hy = hy
  All-append (x ∷ xs) ys (px, hx) hy = (px, All-append xs ys hx hy)

  pub All-left : (xs ys : List A) → All (xs ++ ys) → All xs
  All-left [] ys h = tt
  All-left (x ∷ xs) ys h = (h.0, All-left xs ys h.1)

  pub All-right : (xs ys : List A) → All (xs ++ ys) → All ys
  All-right [] ys h = h
  All-right (x ∷ xs) ys h = All-right xs ys h.1
