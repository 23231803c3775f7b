-- ===== src/Transparency/Rejection.antt =====
-- A terminator inside the body is an error.
use whalemail.Prelude.{
  ℕ, zero, suc, true, false, ◌≡◌, ◌≢◌, refl, ap, ◌∙◌, inl, inr, none, List, [], ◌∷◌, ◌++◌, arith,
  Bool-cases,
}
use whalemail.Prelude.Outcome.{err}
use whalemail.Text.{Text, crlf, starts_with, text_eq, cons_head, split_from}
use whalemail.Transparency.{
  mail_end_at_unexpected_position, crlf_dot, mail_end, dot, decode_split, decode_transparency,
}
use whalemail.Transparency.Chunks.{tail_text, decode_split-tail_text}
use whalemail.Transparency.Scan.{
  scan, split_match, period_no_match, split_at_match, split_no_match, Clear,
}
use whalemail.Transparency.Stuffing.{Place, line_start, inside, stuff}
use whalemail.Transparency.RoundTrip.{split_dot, stuff_first_dot, decode-eq-decode_split}

abbrev IsRejected : List Text → Type 0
IsRejected [] = ⊥
IsRejected (c ∷ []) = ⊥
IsRejected (c ∷ d ∷ cs) = tail_text (d ∷ cs) ≡ none

IsRejected-cons_head : (x : ℕ) (cs : List Text) → IsRejected cs → IsRejected (cons_head x cs)
unfolding cons_head
IsRejected-cons_head x [] h = absurd h
IsRejected-cons_head x (c ∷ []) h = absurd h
IsRejected-cons_head x (c ∷ d ∷ cs) h = h

IsRejected-period : (cs : List Text) → IsRejected cs → IsRejected ([] ∷ cons_head b'.' cs)
unfolding cons_head tail_text
IsRejected-period [] h = absurd h
IsRejected-period (c ∷ []) h = absurd h
IsRejected-period (c ∷ d ∷ cs) h = ground arith

IsRejected-decode_split :
    (cs : List Text) → IsRejected cs → decode_split cs ≡ err mail_end_at_unexpected_position
IsRejected-decode_split [] h = absurd h
IsRejected-decode_split (c ∷ []) h = absurd h
IsRejected-decode_split (c ∷ d ∷ cs) h = rw (decode_split-tail_text c d cs, h)

cons_head-ne-nil : (x : ℕ) (cs : List Text) → cons_head x cs ≢ []
unfolding cons_head
cons_head-ne-nil x [] h = cc
cons_head-ne-nil x (c ∷ cs) h = cc

split_from-ne-nil : (p : Text) (k : ℕ) (s : Text) → split_from p k s ≢ []
unfolding split_from cons_head
split_from-ne-nil p k [] e = cc
split_from-ne-nil p (suc k) (x ∷ s) e = split_from-ne-nil p k s e
split_from-ne-nil p zero (x ∷ s) e = elim (Bool-cases (starts_with (x ∷ s) p)) [
  | inl m ↦ ground arith
  | inr n ↦ cons_head-ne-nil x (split_from p zero s) (ground arith)
]

tail_none-cons : (cs : List Text) → cs ≢ [] → tail_text ((b'\r' ∷ b'\n' ∷ []) ∷ cs) ≡ none
unfolding tail_text starts_with
tail_none-cons [] h = absurd (h refl)
tail_none-cons (c ∷ cs) h = refl

-- a chunk that shows a line break and more
tail_none :
    (x : ℕ) (cs : List Text) → tail_text (cons_head b'\r' (cons_head b'\n' (cons_head x cs))) ≡ none
unfolding tail_text cons_head starts_with text_eq
tail_none x [] = refl
tail_none x (c ∷ []) = refl
tail_none x (c ∷ d ∷ cs) = refl

IsRejected-intro : (cs : List Text) → cs ≢ [] → tail_text cs ≡ none → IsRejected ([] ∷ cs)
IsRejected-intro [] ne h = absurd (ne refl)
IsRejected-intro (c ∷ cs) ne h = h

-- more text behind a terminator, that does not start with a period
module _ (x : ℕ) (s : Text) (no_dot : starts_with (x ∷ s) dot ≡ false) where
  split_mail_end :
      split_from crlf_dot zero (mail_end ++ x ∷ s)
      ≡ [] ∷ cons_head b'\r' (cons_head b'\n' (split_from crlf_dot zero (x ∷ s)))
  split_mail_end =
      split_at_match (crlf ++ x ∷ s)
      ∙ ap (λ cs. [] ∷ cs)
          (split_no_match b'\r' (b'\n' ∷ x ∷ s) cr_no_match
            ∙ ap (cons_head b'\r') (split_no_match b'\n' (x ∷ s) (unfold starts_with in refl)))
    where
      cr_no_match : starts_with (crlf ++ x ∷ s) crlf_dot ≡ false
      cr_no_match = unfold starts_with in ground arith

  tail_text-mail_end :
      tail_text (cons_head b'\r' (cons_head b'\n' (split_from crlf_dot zero (x ∷ s)))) ≡ none
  tail_text-mail_end = elim (Bool-cases (starts_with (x ∷ s) crlf_dot)) [
    | inl m ↦
        rw (split_match x s m) (unfold cons_head in tail_none-cons _ (split_from-ne-nil _ _ _))
    | inr n ↦ rw (split_no_match x s n) (tail_none x (split_from crlf_dot zero s))
  ]

  abbrev tail : Text
  tail = b'.' ∷ b'\r' ∷ b'\n' ∷ x ∷ s

  mail_end-IsRejected : IsRejected (split_from crlf_dot zero (crlf ++ tail))
  mail_end-IsRejected =
      rw split_mail_end (IsRejected-intro _ (cons_head-ne-nil _ _) tail_text-mail_end)

  stuff-IsRejected :
      (p : Place) (b : Text)
      → Clear p b
      → IsRejected (split_from crlf_dot zero (stuff p b ++ (crlf ++ tail)))
  stuff-IsRejected =
      scan (λ _ cs. IsRejected cs) tail mail_end-IsRejected
        (λ x _ cs h. IsRejected-cons_head x cs h) (λ _ cs h. IsRejected-period cs h)

  decode-dotted :
      (b : Text)
      → starts_with b dot ≡ true
      → decode_transparency (stuff line_start b ++ (crlf ++ tail))
        ≡ err mail_end_at_unexpected_position
  decode-dotted [] e = unfold starts_with in cc
  decode-dotted (y ∷ b) e =
      decode-eq-decode_split (stuff line_start (y ∷ b)) tail
      ∙ rw
          (
            (stuff_first_dot y b e).0,
            split_dot,
            split_no_match b'.' _ (period_no_match (stuff inside b ++ (crlf ++ tail))),
          )
          (IsRejected-decode_split _
            (IsRejected-cons_head _ _ (IsRejected-cons_head _ _ (stuff-IsRejected inside b tt))))

-- For every body, text behind its terminator CR LF . CR LF that does not start with a period is
-- reported as a mail end at an unexpected position.
pub decode_transparency-trailing :
    (b : Text) (x : ℕ) (s : Text)
    → x ≢ b'.'
    → decode_transparency (stuff line_start b ++ (mail_end ++ x ∷ s))
      ≡ err mail_end_at_unexpected_position
decode_transparency-trailing b x s ne = elim (Bool-cases (starts_with b dot)) [
  | inl e ↦ decode-dotted x s no_dot b e
  | inr e ↦
      decode-eq-decode_split (stuff line_start b) (tail x s no_dot)
      ∙ IsRejected-decode_split _ (stuff-IsRejected x s no_dot line_start b e)
]
  where
    no_dot : starts_with (x ∷ s) dot ≡ false
    no_dot = unfold starts_with in ground arith
