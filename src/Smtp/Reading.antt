-- ===== src/Smtp/Reading.antt =====
-- What the server and the client make of the bytes that they read.
use whalemail.Prelude.{◌≡◌, ap, some, List, [], ◌∷◌, All}
use whalemail.Prelude.Outcome.{ok}
use whalemail.Text.{Text}
use whalemail.Text.Utf8.{as_bytes}
use whalemail.Text.RoundTrip.{IsScalar, from_utf8-as_bytes, from_utf8_lossy-as_bytes}
use whalemail.Smtp.Session.{or_hex, input_text}
use whalemail.Client.Network.{text_of}

text_of-eq :
    (bytes : List _) (t : Text)
    → whalemail.Text.Lossy.from_utf8_lossy bytes ≡ t
    → text_of (some (ok bytes)) ≡ some (ok t)
unfolding whalemail.Text.Lossy.from_utf8_lossy whalemail.Text.Lossy.lossy_from
text_of-eq [] t e = ap (λ u. some (ok u)) e
text_of-eq (b ∷ bytes) t e = ap (λ u. some (ok u)) e

-- A text of Unicode scalar values that is sent in UTF-8 and read at once is handed to the server's
-- handler as it is, and a reply likewise to the client.
pub input_text-as_bytes :
    (t : Text)
    → All IsScalar t
    → (input_text (as_bytes t) ≡ t) × (text_of (some (ok (as_bytes t))) ≡ some (ok t))
unfolding input_text
input_text-as_bytes t h = (
  ap (or_hex (as_bytes t)) (from_utf8-as_bytes t h),
  text_of-eq (as_bytes t) t (from_utf8_lossy-as_bytes t h),
)
