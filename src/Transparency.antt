-- ===== src/Transparency.antt =====
-- src/smtp/server.rs: `TransparencySyntaxError`, `DataState::contains_mail_end` and
-- `DataState::decode_transparency`. The capacity that the source reserves for the result string
-- has no effect on the text and is left out.
pub mod Stuffing
mod Chunks
mod Scan
pub mod RoundTrip
pub mod Rejection
pub mod Policy
use whalemail.Prelude.{Bool, true, false, not, ◌&&◌, ◌||◌, List, [], ◌∷◌, ◌++◌, if◌then◌else◌}
use whalemail.Prelude.Outcome.{Result, ok, err, ◌>>=◌}
use whalemail.Text.{Text, crlf, text_eq, starts_with, ends_with, contains, split}

pub data TransparencySyntaxError : Type 0 where
  no_newline_mail_end mail_end_at_unexpected_position : TransparencySyntaxError

abbrev pub dot : Text
dot = b'.' ∷ []

-- "\r\n."
abbrev pub crlf_dot : Text
crlf_dot = b'\r' ∷ b'\n' ∷ b'.' ∷ []

-- ".\r\n"
abbrev pub dot_crlf : Text
dot_crlf = b'.' ∷ b'\r' ∷ b'\n' ∷ []

-- "\r\n.\r\n"
abbrev pub mail_end : Text
mail_end = b'\r' ∷ b'\n' ∷ b'.' ∷ b'\r' ∷ b'\n' ∷ []

unfoldable pub contains_mail_end : Text → Bool
unfolding starts_with contains ends_with
contains_mail_end s = starts_with s dot_crlf || contains s mail_end || ends_with s crlf_dot

abbrev policy_allow_rnp_end : Bool
policy_allow_rnp_end = true

-- chunks[chunks.len() - 1]
unfoldable pub last_chunk : List Text → Text
last_chunk [] = []
last_chunk (c ∷ []) = c
last_chunk (c ∷ d ∷ cs) = last_chunk (d ∷ cs)

-- chunks[chunks.len() - 1] = v
unfoldable pub set_last_chunk : List Text → Text → List Text
set_last_chunk [] v = []
set_last_chunk (c ∷ []) v = v ∷ []
set_last_chunk (c ∷ d ∷ cs) v = c ∷ set_last_chunk (d ∷ cs) v

-- `&chunk[1..]` if the chunk starts with a period
unfoldable pub strip_dot : Text → Text
strip_dot [] = []
strip_dot (x ∷ c) = if starts_with (x ∷ c) dot then c else x ∷ c

-- the loop over the chunks behind the first, with the text so far
unfoldable pub push_chunks : Text → List Text → Result TransparencySyntaxError Text
unfolding starts_with
push_chunks r [] = ok r
push_chunks r (c ∷ cs) =
    let rest = push_chunks (r ++ (crlf ++ c)) cs in
    if starts_with c crlf then err mail_end_at_unexpected_position else rest

-- the whole loop: only the first chunk loses a leading period
unfoldable pub decode_chunks : List Text → Result TransparencySyntaxError Text
unfolding strip_dot push_chunks
decode_chunks [] = ok []
decode_chunks (c ∷ cs) = push_chunks (strip_dot c) cs

-- the body of `decode_transparency` behind the split
unfoldable pub decode_split : List Text → Result TransparencySyntaxError Text
unfolding text_eq last_chunk set_last_chunk decode_chunks
decode_split chunks =
    if text_eq (last_chunk chunks) crlf
    then decode_chunks (set_last_chunk chunks dot_crlf)
    else if not policy_allow_rnp_end
    then err no_newline_mail_end
    else do r ← decode_chunks chunks; ok (r ++ dot)

unfoldable pub decode_transparency : Text → Result TransparencySyntaxError Text
unfolding decode_split split
decode_transparency [] = ok []
decode_transparency (x ∷ s) = decode_split (split (x ∷ s) crlf_dot)
