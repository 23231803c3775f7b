-- ===== src/Client/Count.antt =====
-- Lists with the same hosts of each preference are of the same length.
use whalemail.Prelude.{
  ℕ, zero, suc, ◌+◌, ◌≤◌, ◌<◌, ◌≡◌, refl, sym, ap, ◌∙◌, List, [], ◌∷◌, arith, if◌then◌else◌, ◌==◌,
  ==_iff, All, length, inl, inr, Bool-cases,
}
use mathlib.Core.List.{Perm, foldr}
use mathlib.Core.List.Perm as Perms
use native.Mathlib.Nat.{ℕ_set}
use whalemail.Text.{Text}
use whalemail.Client.Order.{with_preference, All-map}

unfoldable sum : ℕ → (ℕ → ℕ) → ℕ
sum zero f = 0
sum (suc n) f = f n + sum n f

sum_ext : (n : ℕ) {f g : ℕ → ℕ} → ((k : ℕ) → f k ≡ g k) → sum n f ≡ sum n g
unfolding sum
sum_ext zero h = refl
sum_ext (suc n) h = omega (arith, h n, sum_ext n h)

sum-zero : (n : ℕ) → sum n (λ k. 0) ≡ 0
unfolding sum
sum-zero zero = refl
sum-zero (suc n) = omega (arith, sum-zero n)

abbrev hit : ℕ → ℕ → ℕ
hit p k = if p == k then 1 else 0

sum-miss : (n p : ℕ) (f : ℕ → ℕ) → n ≤ p → sum n (λ k. hit p k + f k) ≡ sum n f
unfolding sum
sum-miss zero p f h = refl
sum-miss (suc n) p f h = ground (arith, sum-miss n p f, (==_iff p n).0)

sum-hit : (n p : ℕ) (f : ℕ → ℕ) → p < n → sum n (λ k. hit p k + f k) ≡ suc (sum n f)
unfolding sum
sum-hit zero p f h = absurd (omega arith)
sum-hit (suc n) p f h = elim (Bool-cases (p == n)) [
  | inl y ↦ ground (arith, sum-miss n p f, (==_iff p n).0 y)
  | inr o ↦ ground (arith, sum-hit n p f, (==_iff p n).1)
]

abbrev Below : ℕ → List (ℕ × Text) → Type 0
Below n = All (λ x. x.0 < n)

length-sum :
    (n : ℕ) (l : List (ℕ × Text)) → Below n l → length l ≡ sum n (λ k. length (with_preference l k))
unfolding with_preference
length-sum n [] h = sym (sum-zero n)
length-sum n ((p, host) ∷ l) h =
    ap suc (length-sum n l h.1)
    ∙ (sym (sum-hit n p (λ k. length (with_preference l k)) h.0) ∙ sum_ext n (λ k. ground arith))

unfoldable top : List (ℕ × Text) → ℕ
top [] = 0
top (x ∷ l) = suc (x.0 + top l)

top-Below : (l : List (ℕ × Text)) (n : ℕ) → Below (top l + n) l
unfolding top
top-Below [] n = tt
top-Below (x ∷ l) n = (omega arith, All-map (λ y h. omega arith) l (top-Below l n))

foldr-length : (xs : List Text) → foldr (λ x n. suc n) 0 xs ≡ length xs
foldr-length [] = refl
foldr-length (x ∷ xs) = ap suc (foldr-length xs)

Perm-length : (xs ys : List Text) → Perm xs ys → length xs ≡ length ys
Perm-length xs ys p =
    sym (foldr-length xs)
    ∙ (Perms.foldr-eq ℕ_set (λ x n. suc n) (λ a b n. refl) p 0 ∙ foldr-length ys)

pub same_length :
    (l r : List (ℕ × Text))
    → ((k : ℕ) → Perm (with_preference l k) (with_preference r k))
    → length l ≡ length r
same_length l r same =
    length-sum (top l + top r) l (top-Below l (top r))
    ∙ (sum_ext (top l + top r) (λ k. Perm-length _ _ (same k))
        ∙ sym (length-sum (top l + top r) r (All-map (λ y h. omega arith) r (top-Below r (top l)))))
