-- ===== src/Transparency/Chunks.antt =====
-- What a list of chunks stands for, and that `decode_split` returns it.
use whalemail.Prelude.{
  ℕ, false, ◌≡◌, refl, ap, ◌∙◌, inl, inr, Option, none, some, List, [], ◌∷◌, ◌++◌, append_assoc,
  arith, if◌then◌else◌, Option-cases,
}
use mathlib.Core.Option
use whalemail.Prelude.Outcome.{Result, ok, err, ◌>>=◌}
use whalemail.Text.{Text, crlf, text_eq, starts_with, cons_head}
use whalemail.Transparency.{
  TransparencySyntaxError, mail_end_at_unexpected_position, crlf_dot, dot_crlf, dot, last_chunk,
  set_last_chunk, strip_dot, push_chunks, decode_split,
}

-- what the chunks behind the first stand for; `none` if one of them shows a mail end
unfoldable pub tail_text : List Text → Option Text
tail_text [] = none
tail_text (c ∷ []) =
    if text_eq c crlf
    then some (crlf ++ dot_crlf)
    else if starts_with c crlf
    then none
    else some (crlf ++ (c ++ dot))
tail_text (c ∷ d ∷ cs) =
    let rest = Option.map (λ o. crlf ++ (c ++ o)) (tail_text (d ∷ cs)) in
    if starts_with c crlf then none else rest

unfoldable pub head_text : List Text → Option Text
unfolding tail_text
head_text [] = none
head_text (c ∷ cs) = Option.map (λ o. c ++ o) (tail_text cs)

-- the result behind the text `r`
abbrev pub result : Text → Option Text → Result TransparencySyntaxError Text
result r none = err mail_end_at_unexpected_position
result r (some o) = ok (r ++ o)

-- `decode_split` behind the first chunk
decode_tail : Text → List Text → Result TransparencySyntaxError Text
unfolding push_chunks last_chunk set_last_chunk
decode_tail r cs =
    if text_eq (last_chunk cs) crlf
    then push_chunks r (set_last_chunk cs dot_crlf)
    else do t ← push_chunks r cs; ok (t ++ dot)

decode_tail-cons :
    (r c d : Text) (cs : List Text)
    → decode_tail r (c ∷ d ∷ cs) ≡ (
        if starts_with c crlf
        then err mail_end_at_unexpected_position
        else decode_tail (r ++ (crlf ++ c)) (d ∷ cs))
unfolding decode_tail
decode_tail-cons r c d cs = ground arith

decode_tail_one : (r c : Text) → decode_tail r (c ∷ []) ≡ result r (tail_text (c ∷ []))
unfolding decode_tail tail_text
decode_tail_one r c = ground (arith, append_assoc r (crlf ++ c) dot)

result-append :
    (r c : Text) (o : Option Text)
    → result (r ++ (crlf ++ c)) o ≡ result r (Option.map (λ t. crlf ++ (c ++ t)) o)
result-append r c none = refl
result-append r c (some o) = ap ok (append_assoc r (crlf ++ c) o)

tail_text-cons :
    (c d : Text) (cs : List Text)
    → tail_text (c ∷ d ∷ cs) ≡ (
        if starts_with c crlf
        then none
        else Option.map (λ o. crlf ++ (c ++ o)) (tail_text (d ∷ cs)))
unfolding tail_text
tail_text-cons c d cs = refl

decode_tail_lem :
    (r c : Text) (cs : List Text) → decode_tail r (c ∷ cs) ≡ result r (tail_text (c ∷ cs))
decode_tail_lem r c [] = decode_tail_one r c
decode_tail_lem r c (d ∷ cs) =
    decode_tail-cons r c d cs
    ∙ ground (
      arith,
      tail_text-cons c d cs,
      decode_tail_lem (r ++ (crlf ++ c)) d cs,
      result-append r c (tail_text (d ∷ cs)),
    )

-- With a tail, the chunks decode to what they stand for.
pub decode_split-tail_text :
    (c d : Text) (cs : List Text)
    → decode_split (c ∷ d ∷ cs) ≡ result (strip_dot c) (tail_text (d ∷ cs))
decode_split-tail_text c d cs =
    unfold decode_split decode_tail in decode_tail_lem (strip_dot c) d cs

decode_split-head_text :
    (c : Text) (cs : List Text) {o : Text}
    → tail_text cs ≡ some o
    → decode_split (c ∷ cs) ≡ ok (strip_dot c ++ o)
decode_split-head_text c [] h = unfold tail_text in cc
decode_split-head_text c (d ∷ cs) h = decode_split-tail_text c d cs ∙ ap (result (strip_dot c)) h

pub head_text-cons_head :
    (x : ℕ) (cs : List Text) {o : Text}
    → head_text cs ≡ some o
    → head_text (cons_head x cs) ≡ some (x ∷ o)
unfolding head_text cons_head
head_text-cons_head x [] h = cc
head_text-cons_head x (c ∷ cs) h = ground arith

-- A doubled period stays in its chunk, which then starts with no line break.
pub tail_text-cons_head :
    (cs : List Text) {o : Text}
    → head_text cs ≡ some o
    → tail_text (cons_head b'.' cs) ≡ some (crlf_dot ++ o)
unfolding head_text tail_text cons_head starts_with
tail_text-cons_head [] h = cc
tail_text-cons_head (c ∷ []) h = cc
tail_text-cons_head (c ∷ d ∷ cs) h = elim (Option-cases (tail_text (d ∷ cs))) [
  | inl n ↦ ground arith
  | inr (o', n) ↦ ground arith
]

pub head_text_nil :
    (cs : List Text) {o : Text} → tail_text cs ≡ some o → head_text ([] ∷ cs) ≡ some o
unfolding head_text
head_text_nil cs h = ground arith

strip_dot_none : (c o : Text) → starts_with (c ++ o) dot ≡ false → strip_dot c ≡ c
unfolding strip_dot starts_with
strip_dot_none [] o h = refl
strip_dot_none (x ∷ c) o h = ground arith

-- A list of chunks that stands for a text with no period in front decodes to that text.
pub decode_split-eq :
    (cs : List Text) {o : Text}
    → head_text cs ≡ some o
    → starts_with o dot ≡ false
    → decode_split cs ≡ ok o
unfolding head_text
decode_split-eq [] h d = cc
decode_split-eq (c ∷ cs) {o} h d = elim (Option-cases (tail_text cs)) [
  | inl n ↦ ground arith
  | inr (o', n) ↦
      let e : c ++ o' ≡ o = ground arith in
      decode_split-head_text c cs n ∙ cc (strip_dot_none c o' (rw e d), e)
]

-- A period in front of the first chunk is dropped.
pub decode_split-dot :
    (cs : List Text) {o : Text} → head_text cs ≡ some o → decode_split (cons_head b'.' cs) ≡ ok o
unfolding head_text cons_head
decode_split-dot [] h = cc
decode_split-dot (c ∷ cs) {o} h = elim (Option-cases (tail_text cs)) [
  | inl n ↦ ground arith
  | inr (o', n) ↦
      decode_split-head_text (b'.' ∷ c) cs n ∙ unfold strip_dot starts_with in ground arith
]
