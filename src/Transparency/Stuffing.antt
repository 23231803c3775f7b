-- ===== src/Transparency/Stuffing.antt =====
-- Dot stuffing as a client does it (RFC 5321, section 4.5.2), described line by line.
use whalemail.Prelude.{ℕ, Bool, true, false, ◌&&◌, [], ◌∷◌, ◌++◌, ◌==◌, if◌then◌else◌}
use whalemail.Text.{Text}

-- where the sender stands: at the start of a line, behind a carriage return, or elsewhere
pub data Place : Type 0 where
  line_start after_cr inside : Place

abbrev pub at_start : Place → Bool
at_start line_start = true
at_start _ = false

abbrev pub behind_cr : Place → Bool
behind_cr after_cr = true
behind_cr _ = false

-- a line starts behind CR LF
unfoldable pub next_place : Place → ℕ → Place
next_place p x =
    if x == b'\r' then after_cr else if behind_cr p && x == b'\n' then line_start else inside

-- a period at the start of a line is sent twice
unfoldable pub stuff : Place → Text → Text
unfolding next_place
stuff p [] = []
stuff p (x ∷ s) =
    (if at_start p && x == b'.' then b'.' ∷ [] else []) ++ (x ∷ stuff (next_place p x) s)
