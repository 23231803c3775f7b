-- ===== src/Tests/Running.antt =====
-- The theorems on what does not panic at concrete inputs.
use whalemail.Prelude.{Bool, true, ◌&&◌, ◌≡◌, List, [], ◌∷◌, All, arith, ltb, inl}
use whalemail.Prelude.Outcome.{ok}
use whalemail.Text.{Text}
use whalemail.Text.RoundTrip.{IsScalar}
use whalemail.Command.Ascii.{IsAscii}
use whalemail.Process.{Incoming, plain}
use whalemail.Tests.Library.{test_env}
use whalemail.Tests.Samples.{reads_of, relay_attempt}
use whalemail.Prelude.{inl}

unfoldable pub ascii : Text → Bool
ascii [] = true
ascii (c ∷ s) = ltb c 128 && ascii s

pub IsAscii-ascii : (s : Text) → ascii s ≡ true → IsAscii s
unfolding ascii
IsAscii-ascii [] e = tt
IsAscii-ascii (c ∷ s) e = (ground arith, IsAscii-ascii s (ground arith))

pub IsScalar-IsAscii : (s : Text) → IsAscii s → All IsScalar s
IsScalar-IsAscii [] h = tt
IsScalar-IsAscii (c ∷ s) h = (inl (omega (arith, h.0)), IsScalar-IsAscii s h.1)

-- one client that goes through a part of a session and then waits
abbrev waiting_client : List Incoming
waiting_client =
    plain (ok (record { socket = test_env.socket; reads = reads_of relay_attempt })) ∷ []
