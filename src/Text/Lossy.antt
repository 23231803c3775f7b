-- ===== src/Text/Lossy.antt =====
-- `String::from_utf8_lossy`: U+FFFD stands for each longest part of a character that cannot go on.
use whalemail.Prelude.{Option, none, some, List, [], ◌∷◌, if◌then◌else◌, ℕ}
use whalemail.Text.{Text}
use whalemail.Text.Utf8.{Pending, lead, trail, finished}

abbrev pub replacement : ℕ
replacement = 0xFFFD

-- behind a byte that led to the state `p`: `none` if it fits no character
abbrev pub resume : Option Pending → (Option Pending → Text) → Text
resume none rest = replacement ∷ rest none
resume (some q) rest = if finished q then q.value ∷ rest none else rest (some q)

-- a byte that does not go on with a character is read again as the first of the next
unfoldable pub lossy_from : Option Pending → List ℕ → Text
lossy_from none [] = []
lossy_from (some p) [] = replacement ∷ []
lossy_from none (b ∷ s) = resume (lead b) (λ q. lossy_from q s)
lossy_from (some p) (b ∷ s) = elim (trail p b) [
  | none ↦ replacement ∷ resume (lead b) (λ q. lossy_from q s)
  | some q ↦ resume (some q) (λ r. lossy_from r s)
]

unfoldable pub from_utf8_lossy : List ℕ → Text
unfolding lossy_from lead trail
from_utf8_lossy s = lossy_from none s
