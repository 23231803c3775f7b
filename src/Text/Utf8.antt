-- ===== src/Text/Utf8.antt =====
-- `str::from_utf8`: well-formed UTF-8 byte by byte (Unicode, table 3-7), and the bytes of a text.
use whalemail.Prelude.{
  ℕ, ◌+◌, ◌-◌, ◌*◌, ◌/◌, ◌%◌, Bool, ◌&&◌, Option, none, some, List, [], ◌∷◌, ◌++◌, ltb, leb, ◌==◌,
  if◌then◌else◌,
}
use mathlib.Core.Option
use whalemail.Text.{Text}

-- inside a character: the bytes still to come, the value so far and the range of the next byte
pub record Pending : Type 0 where
  pub left : ℕ
  pub value : ℕ
  pub low : ℕ
  pub high : ℕ

abbrev between : ℕ → ℕ → ℕ → Bool
between lo hi b = leb lo b && leb b hi

abbrev pending : ℕ → ℕ → ℕ → ℕ → Option Pending
pending left value low high = some (record { left = left; value = value; low = low; high = high })

-- the first byte of a character
unfoldable pub lead : ℕ → Option Pending
lead b =
    if ltb b 0x80
    then pending 0 b 0 0
    else if between 0xC2 0xDF b
    then pending 1 (b - 0xC0) 0x80 0xBF
    else if b == 0xE0
    then pending 2 0 0xA0 0xBF
    else if b == 0xED
    then pending 2 0xD 0x80 0x9F
    else if between 0xE1 0xEF b
    then pending 2 (b - 0xE0) 0x80 0xBF
    else if b == 0xF0
    then pending 3 0 0x90 0xBF
    else if b == 0xF4
    then pending 3 4 0x80 0x8F
    else if between 0xF1 0xF3 b
    then pending 3 (b - 0xF0) 0x80 0xBF
    else none

-- a byte behind the first
unfoldable pub trail : Pending → ℕ → Option Pending
trail p b =
    if between p.low p.high b
    then pending (p.left - 1) (p.value * 64 + (b - 0x80)) 0x80 0xBF
    else none

-- what a byte does: `none` between two characters
unfoldable pub advance : Option Pending → ℕ → Option Pending
unfolding lead trail
advance none b = lead b
advance (some p) b = trail p b

abbrev pub finished : Pending → Bool
finished p = p.left == 0

-- the text of the bytes `s` in the state `p`
unfoldable pub utf8_from : Option Pending → List ℕ → Option Text
unfolding advance
utf8_from none [] = some []
utf8_from (some p) [] = none
utf8_from p (b ∷ s) = elim (advance p b) [
  | none ↦ none
  | some q ↦
      let rest = utf8_from none s in
      let more = utf8_from (some q) s in
      if finished q then Option.map (λ t. q.value ∷ t) rest else more
]

unfoldable pub from_utf8 : List ℕ → Option Text
unfolding utf8_from
from_utf8 = utf8_from none

unfoldable pub utf8_encode : ℕ → List ℕ
utf8_encode c =
    if ltb c 0x80
    then c ∷ []
    else if ltb c 0x800
    then (0xC0 + c / 64) ∷ (0x80 + c % 64) ∷ []
    else if ltb c 0x10000
    then (0xE0 + c / 4096) ∷ (0x80 + c / 64 % 64) ∷ (0x80 + c % 64) ∷ []
    else (0xF0 + c / 262144) ∷ (0x80 + c / 4096 % 64) ∷ (0x80 + c / 64 % 64) ∷ (0x80 + c % 64) ∷ []

-- s.as_bytes()
unfoldable pub as_bytes : Text → List ℕ
unfolding utf8_encode
as_bytes [] = []
as_bytes (c ∷ s) = utf8_encode c ++ as_bytes s
