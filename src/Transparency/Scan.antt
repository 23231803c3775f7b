-- ===== src/Transparency/Scan.antt =====
-- How `split` cuts a stuffed text that ends in a line break: an induction over the body.
use whalemail.Prelude.{
  ℕ, zero, pred, length, true, false, ◌≡◌, refl, inl, inr, List, [], ◌∷◌, ◌++◌, arith, Bool-cases,
}
use whalemail.Text.{Text, crlf, starts_with, cons_head, split_from}
use whalemail.Transparency.{crlf_dot, dot}
use whalemail.Transparency.Stuffing.{Place, line_start, after_cr, inside, next_place, stuff}

-- no match starts in the pending line break, nor does a period stand at a line start
abbrev pub Clear : Place → Text → Type 0
Clear line_start b = starts_with b dot ≡ false
Clear after_cr b = starts_with b (b'\n' ∷ b'.' ∷ []) ≡ false
Clear inside b = Unit

-- Behind a carriage return, stuffing and a line break make no line that starts with a period.
starts_with-stuff :
    (s r : Text)
    → starts_with s (b'\n' ∷ b'.' ∷ []) ≡ false
    → starts_with (stuff after_cr s ++ (crlf ++ r)) (b'\n' ∷ b'.' ∷ []) ≡ false
unfolding starts_with stuff
starts_with-stuff [] r h = refl
starts_with-stuff (x ∷ []) r h = ground arith
starts_with-stuff (x ∷ y ∷ s) r h = ground arith

stuff-cons :
    (p : Place) (x : ℕ) (s : Text)
    → Clear p (x ∷ s)
    → stuff p (x ∷ s) ≡ x ∷ stuff (next_place p x) s
unfolding stuff starts_with
stuff-cons line_start x s h = ground arith
stuff-cons after_cr x s h = refl
stuff-cons inside x s h = refl

Clear-next_place :
    (p : Place) (x : ℕ) (s : Text)
    → Clear p (x ∷ s)
    → starts_with (x ∷ s) crlf_dot ≡ false
    → Clear (next_place p x) s
unfolding next_place starts_with
Clear-next_place line_start x s h n = ground arith
Clear-next_place after_cr x s h n = ground arith
Clear-next_place inside x s h n = ground arith

no_match-stuff :
    (p : Place) (x : ℕ) (s r : Text)
    → starts_with (x ∷ s) crlf_dot ≡ false
    → starts_with (x ∷ (stuff (next_place p x) s ++ (crlf ++ r))) crlf_dot ≡ false
unfolding next_place starts_with
no_match-stuff p x s r n = ground (arith, starts_with-stuff s r)

match_eq :
    (x y z : ℕ) (s r : Text)
    → starts_with (x ∷ y ∷ z ∷ s) crlf_dot ≡ true
    → crlf_dot ++ r ≡ x ∷ y ∷ z ∷ r
unfolding starts_with
match_eq x y z s r m = ground arith

short_no_match :
    (x y : ℕ)
    → (starts_with (x ∷ []) crlf_dot ≡ false) × (starts_with (x ∷ y ∷ []) crlf_dot ≡ false)
unfolding starts_with
short_no_match x y = (ground arith, ground arith)

-- the line break and the doubled period that `stuff` makes of a match
stuff_at_match :
    (p : Place) (x y z : ℕ) (s : Text)
    → Clear p (x ∷ y ∷ z ∷ s)
    → starts_with (x ∷ y ∷ z ∷ s) crlf_dot ≡ true
    → stuff p (x ∷ y ∷ z ∷ s) ≡ crlf_dot ++ b'.' ∷ stuff inside s
unfolding stuff starts_with
stuff_at_match p x y z s h m = ground arith

pub split_at_match :
    (r : Text) → split_from crlf_dot zero (crlf_dot ++ r) ≡ [] ∷ split_from crlf_dot zero r
unfolding split_from
split_at_match r = refl

pub split_no_match :
    (x : ℕ) (s : Text)
    → starts_with (x ∷ s) crlf_dot ≡ false
    → split_from crlf_dot zero (x ∷ s) ≡ cons_head x (split_from crlf_dot zero s)
unfolding split_from
split_no_match x s n = rw (n, split_from)

pub split_match :
    (x : ℕ) (s : Text)
    → starts_with (x ∷ s) crlf_dot ≡ true
    → split_from crlf_dot zero (x ∷ s) ≡ [] ∷ split_from crlf_dot (pred (length crlf_dot)) s
unfolding split_from
split_match x s m = rw (m, split_from)

pub period_no_match : (r : Text) → starts_with (b'.' ∷ r) crlf_dot ≡ false
unfolding starts_with
period_no_match r = refl

-- A property of the text and its pieces that holds of the tail, that one more character keeps and
-- that a period at a line start keeps, holds of the whole.
module _ (P : Text → List Text → Type 0) (r : Text)
    (base : P (crlf ++ r) (split_from crlf_dot zero (crlf ++ r)))
    (char : (x : ℕ) (o : Text) (cs : List Text) → P o cs → P (x ∷ o) (cons_head x cs))
    (period : (o : Text) (cs : List Text)
      → P o cs
      → P (crlf_dot ++ o) ([] ∷ cons_head b'.' cs)) where
  abbrev pub AtPlace : Place → Text → Type 0
  AtPlace p b = P (b ++ (crlf ++ r)) (split_from crlf_dot zero (stuff p b ++ (crlf ++ r)))

  scan_step :
      (p : Place) (x : ℕ) (s : Text)
      → Clear p (x ∷ s)
      → starts_with (x ∷ s) crlf_dot ≡ false
      → AtPlace (next_place p x) s
      → AtPlace p (x ∷ s)
  scan_step p x s h n ih =
      rw (stuff-cons p x s h, split_no_match x _ (no_match-stuff p x s r n)) (char x _ _ ih)

  scan_match :
      (p : Place) (x y z : ℕ) (s : Text)
      → Clear p (x ∷ y ∷ z ∷ s)
      → starts_with (x ∷ y ∷ z ∷ s) crlf_dot ≡ true
      → AtPlace inside s
      → AtPlace p (x ∷ y ∷ z ∷ s)
  scan_match p x y z s h m ih =
      rw
        (
          stuff_at_match p x y z s h m,
          split_at_match (b'.' ∷ (stuff inside s ++ (crlf ++ r))),
          split_no_match b'.' _ (period_no_match (stuff inside s ++ (crlf ++ r))),
          ← match_eq x y z s (s ++ (crlf ++ r)) m,
        )
        (period _ _ ih)

  pub scan : (p : Place) (b : Text) → Clear p b → AtPlace p b
  scan p [] h = unfold stuff in base
  scan p (x ∷ []) h =
      scan_step p x [] h (short_no_match x x).0
        (scan (next_place p x) [] (Clear-next_place p x [] h (short_no_match x x).0))
  scan p (x ∷ y ∷ []) h =
      scan_step p x (y ∷ []) h (short_no_match x y).1
        (scan (next_place p x) (y ∷ []) (Clear-next_place p x (y ∷ []) h (short_no_match x y).1))
  scan p (x ∷ y ∷ z ∷ s) h = elim (Bool-cases (starts_with (x ∷ y ∷ z ∷ s) crlf_dot)) [
    | inl m ↦ scan_match p x y z s h m (scan inside s tt)
    | inr n ↦
        scan_step p x (y ∷ z ∷ s) h n
          (scan (next_place p x) (y ∷ z ∷ s) (Clear-next_place p x (y ∷ z ∷ s) h n))
  ]
