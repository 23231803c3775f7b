-- ===== src/Transparency/RoundTrip.antt =====
-- Decoding undoes dot stuffing, and finds a terminator inside the body.
use whalemail.Prelude.{
  ℕ, zero, true, false, ◌≡◌, refl, ap, ◌∙◌, inl, inr, some, List, [], ◌∷◌, ◌++◌, arith, Bool-cases,
}
use whalemail.Prelude.Outcome.{ok}
use whalemail.Text.{Text, crlf, starts_with, text_eq, cons_head, split_from}
use whalemail.Transparency.{crlf_dot, dot_crlf, mail_end, dot, decode_split, decode_transparency}
use whalemail.Transparency.Chunks.{
  head_text, head_text-cons_head, tail_text-cons_head, head_text_nil, decode_split-eq,
  decode_split-dot,
}
use whalemail.Transparency.Scan.{scan, split_no_match, Clear}
use whalemail.Transparency.Stuffing.{Place, line_start, inside, stuff}

-- a text that starts with a line break is not empty
pub decode-eq-decode_split :
    (u r : Text)
    → decode_transparency (u ++ (crlf ++ r))
      ≡ decode_split (split_from crlf_dot zero (u ++ (crlf ++ r)))
unfolding decode_transparency
decode-eq-decode_split [] r = refl
decode-eq-decode_split (x ∷ u) r = refl

pub split_dot :
    (r : Text)
    → split_from crlf_dot zero (b'.' ∷ b'.' ∷ r)
      ≡ cons_head b'.' (split_from crlf_dot zero (b'.' ∷ r))
unfolding split_from
split_dot r = refl

pub stuff_first_dot :
    (x : ℕ) (b : Text)
    → starts_with (x ∷ b) dot ≡ true
    → (stuff line_start (x ∷ b) ≡ b'.' ∷ b'.' ∷ stuff inside b) × (b'.' ∷ b ≡ x ∷ b)
unfolding stuff starts_with
stuff_first_dot x b h = (ground arith, ground arith)

starts_with-append-crlf :
    (b r : Text) → starts_with b dot ≡ false → starts_with (b ++ (crlf ++ r)) dot ≡ false
unfolding starts_with
starts_with-append-crlf [] r h = refl
starts_with-append-crlf (x ∷ b) r h = ground arith

abbrev StandsFor : Text → List Text → Type 0
StandsFor o cs = head_text cs ≡ some o

-- a tail that stands for itself
module _ (r : Text) (base : StandsFor (crlf ++ r) (split_from crlf_dot zero (crlf ++ r))) where
  stuff-StandsFor :
      (p : Place) (b : Text)
      → Clear p b
      → StandsFor (b ++ (crlf ++ r)) (split_from crlf_dot zero (stuff p b ++ (crlf ++ r)))
  stuff-StandsFor =
      scan StandsFor r base (λ x o cs h. head_text-cons_head x cs h)
        (λ o cs h. head_text_nil _ (tail_text-cons_head cs h))

  first_line :
      (b : Text)
      → StandsFor
          (b'.' ∷ (b ++ (crlf ++ r)))
          (split_from crlf_dot zero (b'.' ∷ (stuff inside b ++ (crlf ++ r))))
  first_line b =
      rw (split_no_match b'.' (stuff inside b ++ (crlf ++ r)) (unfold starts_with in refl))
        (head_text-cons_head b'.' _ (stuff-StandsFor inside b tt))

  dotted :
      (b : Text)
      → starts_with b dot ≡ true
      → decode_transparency (stuff line_start b ++ (crlf ++ r)) ≡ ok (b ++ (crlf ++ r))
  dotted [] e = unfold starts_with in cc
  dotted (x ∷ b) e =
      decode-eq-decode_split (stuff line_start (x ∷ b)) r
      ∙ rw ((stuff_first_dot x b e).0, split_dot)
          (decode_split-dot _ (first_line b)
            ∙ ap (λ c. ok (c ++ (crlf ++ r))) (stuff_first_dot x b e).1)

  decode-stuff :
      (b : Text) → decode_transparency (stuff line_start b ++ (crlf ++ r)) ≡ ok (b ++ (crlf ++ r))
  decode-stuff b = elim (Bool-cases (starts_with b dot)) [
    | inl e ↦ dotted b e
    | inr e ↦
        decode-eq-decode_split (stuff line_start b) r
        ∙ decode_split-eq _ (stuff-StandsFor line_start b e) (starts_with-append-crlf b r e)
  ]

-- For every body, decoding its stuffed form with the terminator CR LF . CR LF behind it gives the
-- body with that terminator, and the same holds of the shorter terminator CR LF . at the end.
pub decode_transparency-stuff :
    (b : Text)
    → (decode_transparency (stuff line_start b ++ mail_end) ≡ ok (b ++ mail_end))
      × (decode_transparency (stuff line_start b ++ crlf_dot) ≡ ok (b ++ crlf_dot))
decode_transparency-stuff b = (decode-stuff dot_crlf base_long b, decode-stuff dot base_short b)
  where
    base_long : StandsFor mail_end (split_from crlf_dot zero mail_end)
    base_long = unfold head_text split_from text_eq in refl

    base_short : StandsFor crlf_dot (split_from crlf_dot zero crlf_dot)
    base_short = unfold head_text split_from text_eq starts_with in refl
