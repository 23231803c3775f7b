-- ===== src/Text.antt =====
-- Rust strings, as lists of Unicode scalar values, with the methods of `str` and `String` that the
-- program calls. Lengths and slices count bytes of UTF-8, as Rust's do.
pub mod Laws
pub mod Utf8
pub mod Lossy
pub mod RoundTrip
use Prim.Native.Char.{code}
use Prim.Native.String.{String}
use whalemail.Prelude.{
  ℕ, zero, suc, ◌+◌, ◌-◌, pred, Bool, true, false, ◌&&◌, ◌||◌, Option, none, some, List, [], ◌∷◌,
  ◌++◌, map, reverse, ltb, leb, ◌==◌, if◌then◌else◌, length,
}
use mathlib.Core.Option

abbrev pub Text : Type 0
Text = List ℕ

-- the characters of a literal
abbrev pub codes : String → Text
codes String.[] = []
codes (String.◌∷◌ c s) = code c ∷ codes s

abbrev pub crlf : Text
crlf = b'\r' ∷ b'\n' ∷ []

unfoldable pub text_eq : Text → Text → Bool
text_eq [] [] = true
text_eq [] (y ∷ t) = false
text_eq (x ∷ s) [] = false
text_eq (x ∷ s) (y ∷ t) = x == y && text_eq s t

-- s.starts_with(p)
unfoldable pub starts_with : Text → Text → Bool
starts_with s [] = true
starts_with [] (p ∷ ps) = false
starts_with (x ∷ s) (p ∷ ps) = x == p && starts_with s ps

-- s.ends_with(p)
unfoldable pub ends_with : Text → Text → Bool
unfolding text_eq
ends_with [] p = text_eq [] p
ends_with (x ∷ s) p = text_eq (x ∷ s) p || ends_with s p

-- s.contains(p)
unfoldable pub contains : Text → Text → Bool
unfolding starts_with
contains [] p = starts_with [] p
contains (x ∷ s) p = starts_with (x ∷ s) p || contains s p

-- the current piece gets one more character in front
unfoldable pub cons_head : ℕ → List Text → List Text
cons_head x [] = (x ∷ []) ∷ []
cons_head x (c ∷ cs) = (x ∷ c) ∷ cs

-- `skip` characters of a match are still to be passed over
unfoldable pub split_from : Text → ℕ → Text → List Text
unfolding starts_with cons_head
split_from p skip [] = [] ∷ []
split_from p (suc skip) (x ∷ s) = split_from p skip s
split_from p zero (x ∷ s) = elim (starts_with (x ∷ s) p) [
  | true ↦ [] ∷ split_from p (pred (length p)) s
  | false ↦ cons_head x (split_from p zero s)
]

-- s.split(p), for a pattern that is not empty: matches from left to right that do not overlap
unfoldable pub split : Text → Text → List Text
unfolding split_from
split s p = split_from p zero s

unfoldable pub join : Text → List Text → Text
join sep [] = []
join sep (c ∷ []) = c
join sep (c ∷ d ∷ cs) = c ++ (sep ++ join sep (d ∷ cs))

-- s.replace(p, to)
unfoldable pub replace : Text → Text → Text → Text
unfolding split join
replace s p to = join to (split s p)

-- char::is_whitespace, the property White_Space of Unicode
unfoldable pub is_whitespace : ℕ → Bool
is_whitespace c =
    leb 9 c && leb c 13
    || c == 32
    || c == 0x85
    || c == 0xA0
    || c == 0x1680
    || leb 0x2000 c && leb c 0x200A
    || c == 0x2028
    || c == 0x2029
    || c == 0x202F
    || c == 0x205F
    || c == 0x3000

unfoldable pub trim_start : Text → Text
unfolding is_whitespace
trim_start [] = []
trim_start (c ∷ s) = if is_whitespace c then trim_start s else c ∷ s

unfoldable pub trim : Text → Text
unfolding trim_start
trim s = reverse (trim_start (reverse (trim_start s)))

unfoldable pub ascii_upper : ℕ → ℕ
ascii_upper c = if leb b'a' c && leb c b'z' then c - 32 else c

unfoldable pub to_ascii_uppercase : Text → Text
unfolding ascii_upper
to_ascii_uppercase = map ascii_upper

-- the bytes of a character in UTF-8
unfoldable pub utf8_len : ℕ → ℕ
utf8_len c = if ltb c 0x80 then 1 else if ltb c 0x800 then 2 else if ltb c 0x10000 then 3 else 4

-- s.len()
unfoldable pub byte_length : Text → ℕ
unfolding utf8_len
byte_length [] = 0
byte_length (c ∷ s) = utf8_len c + byte_length s

-- s[0..n]; `none` is the panic on an index behind the end or inside a character
unfoldable pub byte_prefix : ℕ → Text → Option Text
unfolding utf8_len
byte_prefix zero s = some []
byte_prefix (suc n) [] = none
byte_prefix (suc n) (c ∷ s) =
    if ltb (suc n) (utf8_len c)
    then none
    else Option.map (λ t. c ∷ t) (byte_prefix (suc n - utf8_len c) s)
