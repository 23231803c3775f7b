-- ===== src/Text/RoundTrip.antt =====
-- Reading the UTF-8 of a text, with `str::from_utf8` and with `String::from_utf8_lossy`.
use whalemail.Prelude.{
  ℕ, ◌+◌, ◌*◌, ◌/◌, ◌%◌, ◌≤◌, ◌<◌, ◌⊎◌, inl, inr, true, false, ◌≡◌, refl, sym, ap, subst, ◌∙◌,
  Option, none, some, List, [], ◌∷◌, ◌++◌, arith, ltb, ◌==◌, if◌then◌else◌, All, Option-cases,
  Bool-cases,
}
use mathlib.Core.Option
use whalemail.Text.{Text}
use whalemail.Text.Utf8.{
  Pending, lead, trail, finished, advance, utf8_from, from_utf8, utf8_encode, as_bytes,
}
use whalemail.Text.Lossy.{lossy_from, from_utf8_lossy}

-- the Unicode scalar values
abbrev pub IsScalar : ℕ → Type 0
IsScalar c = (c < 0xD800) ⊎ ((0xE000 ≤ c) × (c < 0x110000))

abbrev at : ℕ → ℕ → ℕ → ℕ → Pending
at left value low high = record { left = left; value = value; low = low; high = high }

utf8-goes_on :
    (p : Option Pending) (b : ℕ) (q : Pending) (s : List ℕ)
    → advance p b ≡ some q
    → finished q ≡ false
    → utf8_from p (b ∷ s) ≡ utf8_from (some q) s
unfolding utf8_from
utf8-goes_on none b q s e f = rw (e, utf8_from, f) refl
utf8-goes_on (some p) b q s e f = rw (e, utf8_from, f) refl

utf8-ends :
    (p : Option Pending) (b : ℕ) (q : Pending) (s : List ℕ)
    → advance p b ≡ some q
    → finished q ≡ true
    → utf8_from p (b ∷ s) ≡ Option.map (λ t. q.value ∷ t) (utf8_from none s)
unfolding utf8_from
utf8-ends none b q s e f = rw (e, utf8_from, f) refl
utf8-ends (some p) b q s e f = rw (e, utf8_from, f) refl

advance-trail :
    (n v low high m : ℕ)
    → low ≤ 0x80 + m
    → 0x80 + m ≤ high
    → advance (some (at (n + 1) v low high)) (0x80 + m) ≡ some (at n (v * 64 + m) 0x80 0xBF)
unfolding advance trail
advance-trail n v low high m h k = ground arith

-- the last byte
last :
    (v l : ℕ) (s : List ℕ)
    → l < 64
    → utf8_from (some (at 1 v 0x80 0xBF)) ((0x80 + l) ∷ s)
      ≡ Option.map (λ t. (v * 64 + l) ∷ t) (utf8_from none s)
last v l s h =
    utf8-ends _ _ _ s (advance-trail 0 v 0x80 0xBF l (omega arith) (omega arith)) (ground arith)

two :
    (h l : ℕ) (s : List ℕ)
    → 2 ≤ h
    → h < 32
    → l < 64
    → utf8_from none ((0xC0 + h) ∷ (0x80 + l) ∷ s)
      ≡ Option.map (λ t. (h * 64 + l) ∷ t) (utf8_from none s)
unfolding advance lead
two h l s a b c = utf8-goes_on none (0xC0 + h) (at 1 h 0x80 0xBF) _ leads refl ∙ last h l s c
  where
    leads : lead (0xC0 + h) ≡ some (at 1 h 0x80 0xBF)
    leads = ground arith

-- the lowest and the highest byte behind the first of three
abbrev low3 : ℕ → ℕ
low3 h = if h == 0 then 0xA0 else 0x80

abbrev high3 : ℕ → ℕ
high3 h = if h == 13 then 0x9F else 0xBF

three :
    (h m l : ℕ) (s : List ℕ)
    → h < 16
    → low3 h ≤ 0x80 + m
    → 0x80 + m ≤ high3 h
    → l < 64
    → utf8_from none ((0xE0 + h) ∷ (0x80 + m) ∷ (0x80 + l) ∷ s)
      ≡ Option.map (λ t. ((h * 64 + m) * 64 + l) ∷ t) (utf8_from none s)
unfolding advance lead
three h m l s a b c d =
    utf8-goes_on none (0xE0 + h) (at 2 h (low3 h) (high3 h)) _ leads refl
    ∙ (utf8-goes_on _ _ _ _ (advance-trail 1 h (low3 h) (high3 h) m b c) refl
        ∙ last (h * 64 + m) l s d)
  where
    leads : lead (0xE0 + h) ≡ some (at 2 h (low3 h) (high3 h))
    leads = ground arith

abbrev low4 : ℕ → ℕ
low4 h = if h == 0 then 0x90 else 0x80

abbrev high4 : ℕ → ℕ
high4 h = if h == 4 then 0x8F else 0xBF

four :
    (h m n l : ℕ) (s : List ℕ)
    → h < 5
    → low4 h ≤ 0x80 + m
    → 0x80 + m ≤ high4 h
    → n < 64
    → l < 64
    → utf8_from none ((0xF0 + h) ∷ (0x80 + m) ∷ (0x80 + n) ∷ (0x80 + l) ∷ s)
      ≡ Option.map (λ t. (((h * 64 + m) * 64 + n) * 64 + l) ∷ t) (utf8_from none s)
unfolding advance lead
four h m n l s a b c d e =
    utf8-goes_on none (0xF0 + h) (at 3 h (low4 h) (high4 h)) _ leads refl
    ∙ (utf8-goes_on _ _ _ _ (advance-trail 2 h (low4 h) (high4 h) m b c) refl
        ∙ (utf8-goes_on _ _ _ _
              (advance-trail 1 (h * 64 + m) 0x80 0xBF n (omega arith) (omega arith)) refl
            ∙ last ((h * 64 + m) * 64 + n) l s e))
  where
    leads : lead (0xF0 + h) ≡ some (at 3 h (low4 h) (high4 h))
    leads = ground arith

encode-char :
    (c : ℕ) (s : List ℕ)
    → IsScalar c
    → utf8_from none (utf8_encode c ++ s) ≡ Option.map (λ t. c ∷ t) (utf8_from none s)
unfolding utf8_encode advance lead
encode-char c s scalar = elim (Bool-cases (ltb c 0x80)) [
  | inl y ↦ rw y (utf8-ends none c (at 0 c 0 0) s (ground arith) refl)
  | inr n ↦ elim (Bool-cases (ltb c 0x800)) [
    | inl y ↦
        rw (n, y)
          (subst
            (λ d.
              utf8_from none ((0xC0 + c / 64) ∷ (0x80 + c % 64) ∷ s)
              ≡ Option.map (λ t. d ∷ t) (utf8_from none s))
            (omega arith) (two (c / 64) (c % 64) s (ground arith) (ground arith) (omega arith)))
    | inr m ↦ elim (Bool-cases (ltb c 0x10000)) [
      | inl y ↦
          rw (n, m, y)
            (subst
              (λ d.
                utf8_from none ((0xE0 + c / 4096) ∷ (0x80 + c / 64 % 64) ∷ (0x80 + c % 64) ∷ s)
                ≡ Option.map (λ t. d ∷ t) (utf8_from none s))
              (omega arith)
              (three (c / 4096) (c / 64 % 64) (c % 64) s (ground arith) (ground arith)
                (ground arith) (omega arith)))
      | inr k ↦
          rw (n, m, k)
            (subst
              (λ d.
                utf8_from none (
                  (0xF0 + c / 262144)
                  ∷ (0x80 + c / 4096 % 64)
                  ∷ (0x80 + c / 64 % 64)
                  ∷ (0x80 + c % 64)
                  ∷ s)
                ≡ Option.map (λ t. d ∷ t) (utf8_from none s))
              (omega arith)
              (four (c / 262144) (c / 4096 % 64) (c / 64 % 64) (c % 64) s (ground arith)
                (ground arith) (ground arith) (omega arith) (omega arith)))
    ]
  ]
]

pub from_utf8-as_bytes : (t : Text) → All IsScalar t → from_utf8 (as_bytes t) ≡ some t
unfolding from_utf8 as_bytes utf8_from
from_utf8-as_bytes [] h = refl
from_utf8-as_bytes (c ∷ t) (h, hs) =
    encode-char c (as_bytes t) h ∙ ap (Option.map (λ t. c ∷ t)) (from_utf8-as_bytes t hs)

utf8-stops :
    (p : Option Pending) (b : ℕ) (s : List ℕ) → advance p b ≡ none → utf8_from p (b ∷ s) ≡ none
unfolding utf8_from
utf8-stops none b s e = rw (e, utf8_from) refl
utf8-stops (some p) b s e = rw (e, utf8_from) refl

lossy-goes_on :
    (p : Option Pending) (b : ℕ) (q : Pending) (s : List ℕ)
    → advance p b ≡ some q
    → finished q ≡ false
    → lossy_from p (b ∷ s) ≡ lossy_from (some q) s
unfolding lossy_from advance
lossy-goes_on none b q s e f = rw (e, lossy_from, f) refl
lossy-goes_on (some p) b q s e f = rw (e, lossy_from, f) refl

lossy-ends :
    (p : Option Pending) (b : ℕ) (q : Pending) (s : List ℕ)
    → advance p b ≡ some q
    → finished q ≡ true
    → lossy_from p (b ∷ s) ≡ q.value ∷ lossy_from none s
unfolding lossy_from advance
lossy-ends none b q s e f = rw (e, lossy_from, f) refl
lossy-ends (some p) b q s e f = rw (e, lossy_from, f) refl

map-some :
    (c : ℕ) (o : Option Text) (t u : Text)
    → Option.map (λ r. c ∷ r) o ≡ some t
    → ((r : Text) → o ≡ some r → u ≡ r)
    → c ∷ u ≡ t
map-some c none t u e h = cc
map-some c (some r) t u e h = cc (h r refl, e)

lossy-utf8 :
    (p : Option Pending) (s : List ℕ) (t : Text) → utf8_from p s ≡ some t → lossy_from p s ≡ t
unfolding utf8_from lossy_from
lossy-utf8 none [] t e = cc
lossy-utf8 (some p) [] t e = cc
lossy-utf8 p (b ∷ s) t e = elim (Option-cases (advance p b)) [
  | inl n ↦ cc (e, utf8-stops p b s n)
  | inr (q, a) ↦ elim (Bool-cases (finished q)) [
    | inl y ↦
        lossy-ends p b q s a y
        ∙ map-some q.value (utf8_from none s) t (lossy_from none s)
            (sym (utf8-ends p b q s a y) ∙ e) (λ r. lossy-utf8 none s r)
    | inr n ↦
        lossy-goes_on p b q s a n ∙ lossy-utf8 (some q) s t (sym (utf8-goes_on p b q s a n) ∙ e)
  ]
]

pub from_utf8_lossy-as_bytes : (t : Text) → All IsScalar t → from_utf8_lossy (as_bytes t) ≡ t
unfolding from_utf8 from_utf8_lossy
from_utf8_lossy-as_bytes t h = lossy-utf8 none (as_bytes t) t (from_utf8-as_bytes t h)
