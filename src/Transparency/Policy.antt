-- ===== src/Transparency/Policy.antt =====
-- A body that ends without a line break is accepted, as `policy_allow_rnp_end` says.
use whalemail.Prelude.{◌≡◌, inl, inr, List, [], ◌∷◌, ◌++◌, arith, Bool-cases}
use whalemail.Prelude.Outcome.{err, Result-cases}
use whalemail.Text.{Text, crlf, split, starts_with, text_eq}
use whalemail.Transparency.{
  TransparencySyntaxError, mail_end_at_unexpected_position, crlf_dot, dot_crlf, strip_dot,
  push_chunks, decode_chunks, decode_split, decode_transparency, last_chunk, set_last_chunk,
}

push_chunks-error :
    (r : Text) (cs : List Text) (e : TransparencySyntaxError)
    → push_chunks r cs ≡ err e
    → e ≡ mail_end_at_unexpected_position
unfolding push_chunks
push_chunks-error r [] e h = cc
push_chunks-error r (c ∷ cs) e h = elim (Bool-cases (starts_with c crlf)) [
  | inl y ↦ ground arith
  | inr n ↦ push_chunks-error (r ++ (crlf ++ c)) cs e (ground arith)
]

decode_chunks-error :
    (cs : List Text) (e : TransparencySyntaxError)
    → decode_chunks cs ≡ err e
    → e ≡ mail_end_at_unexpected_position
unfolding decode_chunks
decode_chunks-error [] e h = cc
decode_chunks-error (c ∷ cs) e h = push_chunks-error (strip_dot c) cs e h

decode_split-error :
    (cs : List Text) (e : TransparencySyntaxError)
    → decode_split cs ≡ err e
    → e ≡ mail_end_at_unexpected_position
unfolding decode_split
decode_split-error cs e h = elim (Bool-cases (text_eq (last_chunk cs) crlf)) [
  | inl y ↦ decode_chunks-error (set_last_chunk cs dot_crlf) e (ground arith)
  | inr n ↦ elim (Result-cases (decode_chunks cs)) [
    | inl (r, p) ↦ ground arith
    | inr (x, p) ↦ decode_chunks-error cs e (ground arith)
  ]
]

-- If decoding a text fails, the error is a mail end at an unexpected position.
pub decode_transparency-error :
    (s : Text) (e : TransparencySyntaxError)
    → decode_transparency s ≡ err e
    → e ≡ mail_end_at_unexpected_position
unfolding decode_transparency
decode_transparency-error [] e h = cc
decode_transparency-error (x ∷ s) e h = decode_split-error (split (x ∷ s) crlf_dot) e h
