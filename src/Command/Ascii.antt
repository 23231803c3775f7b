-- ===== src/Command/Ascii.antt =====
-- When `Command::new` does not panic.
use whalemail.Prelude.{
  ℕ, zero, suc, pred, ◌<◌, ◌≤◌, min, ◌≡◌, ◌≢◌, refl, sym, ap, ◌∙◌, Option, none, some, List, [],
  ◌∷◌, reverse, arith, All, length, inl, inr, Bool-cases, Option-cases,
}
use mathlib.Core.Option
use mathlib.Core.List.{reverse_aux}
use whalemail.Text.{
  Text, codes, starts_with, cons_head, split_from, split, trim_start, trim, is_whitespace, utf8_len,
  byte_length, byte_prefix,
}
use whalemail.Command.{first_word, new_command}

abbrev pub IsAscii : Text → Type 0
IsAscii = All (λ c. c < 128)

reverse_aux-IsAscii : (s t : Text) → IsAscii s → IsAscii t → IsAscii (reverse_aux s t)
reverse_aux-IsAscii [] t h k = k
reverse_aux-IsAscii (c ∷ s) t h k = reverse_aux-IsAscii s (c ∷ t) h.1 (h.0, k)

reverse-IsAscii : (s : Text) → IsAscii s → IsAscii (reverse s)
reverse-IsAscii s h = reverse_aux-IsAscii s [] h tt

trim_start-IsAscii : (s : Text) → IsAscii s → IsAscii (trim_start s)
unfolding trim_start
trim_start-IsAscii [] h = tt
trim_start-IsAscii (c ∷ s) h = elim (Bool-cases (is_whitespace c)) [
  | inl y ↦ rw (y, trim_start) (trim_start-IsAscii s h.1)
  | inr n ↦ rw (n, trim_start) h
]

trim-IsAscii : (s : Text) → IsAscii s → IsAscii (trim s)
unfolding trim
trim-IsAscii s h =
    reverse-IsAscii _ (trim_start-IsAscii _ (reverse-IsAscii _ (trim_start-IsAscii s h)))

abbrev AllAscii : List Text → Type 0
AllAscii = All IsAscii

cons_head-IsAscii : (c : ℕ) (ws : List Text) → c < 128 → AllAscii ws → AllAscii (cons_head c ws)
unfolding cons_head
cons_head-IsAscii c [] h k = ((h, tt), tt)
cons_head-IsAscii c (w ∷ ws) h k = ((h, k.0), k.1)

split_from-IsAscii : (p : Text) (skip : ℕ) (s : Text) → IsAscii s → AllAscii (split_from p skip s)
unfolding split_from
split_from-IsAscii p skip [] h = (tt, tt)
split_from-IsAscii p (suc skip) (c ∷ s) h = split_from-IsAscii p skip s h.1
split_from-IsAscii p zero (c ∷ s) h = elim (Bool-cases (starts_with (c ∷ s) p)) [
  | inl y ↦ rw (y, split_from) (tt, split_from-IsAscii p (pred (length p)) s h.1)
  | inr n ↦ rw (n, split_from) (cons_head-IsAscii c _ h.0 (split_from-IsAscii p zero s h.1))
]

first_word-IsAscii : (ws : List Text) → AllAscii ws → IsAscii (first_word ws)
unfolding first_word
first_word-IsAscii [] h = tt
first_word-IsAscii (w ∷ ws) h = h.0

byte_length-IsAscii : (s : Text) → IsAscii s → byte_length s ≡ length s
unfolding byte_length utf8_len
byte_length-IsAscii [] h = refl
byte_length-IsAscii (c ∷ s) h = ground (arith, byte_length-IsAscii s h.1)

map-ne-none : {A B : Type 0} (f : A → B) {o : Option A} {a : A} → o ≡ some a → Option.map f o ≢ none
map-ne-none f z e = cc (sym (ap (Option.map f) z) ∙ e)

byte_prefix-IsAscii : (n : ℕ) (s : Text) → IsAscii s → n ≤ length s → byte_prefix n s ≢ none
unfolding byte_prefix utf8_len
byte_prefix-IsAscii zero s h k e = cc
byte_prefix-IsAscii (suc n) [] h k e = absurd (omega arith)
byte_prefix-IsAscii (suc n) (c ∷ s) h k e = elim (Option-cases (byte_prefix n s)) [
  | inl z ↦ byte_prefix-IsAscii n s h.1 (omega arith) z
  | inr (t, z) ↦ map-ne-none (λ u. c ∷ u) z (sym one ∙ e)
]
  where
    one : byte_prefix (suc n) (c ∷ s) ≡ Option.map (λ t. c ∷ t) (byte_prefix n s)
    one = ground arith

-- A message of ASCII characters does not make `Command::new` panic.
pub new_command-IsAscii : (s : Text) → IsAscii s → new_command s ≢ none
unfolding new_command split
new_command-IsAscii s h e = elim (Option-cases (byte_prefix (min (byte_length first) 10) first)) [
  | inl z ↦ byte_prefix-IsAscii (min (byte_length first) 10) first first_ascii short z
  | inr (w, z) ↦ map-ne-none _ z e
]
  where
    first : Text
    first = first_word (split (trim s) (codes " "))

    first_ascii : IsAscii first
    first_ascii =
        first_word-IsAscii _ (split_from-IsAscii (codes " ") zero (trim s) (trim-IsAscii s h))

    short : min (byte_length first) 10 ≤ length first
    short = omega (arith, byte_length-IsAscii first first_ascii)
