-- ===== src/Smtp/Session.antt =====
-- src/net.rs: `socket_loop` and `server_loop`, over what the environment answers to each `read`.
use whalemail.Prelude.{
  ℕ, ◌+◌, ◌-◌, ◌/◌, ◌%◌, Option, none, some, List, [], ◌∷◌, ◌++◌, map, ltb, if◌then◌else◌,
}
use whalemail.Prelude.Outcome.{Result, ok, err}
use whalemail.Prelude.Action.{Action, pure, fail, ◌>>=◌}
use whalemail.Text.{Text, codes, join}
use whalemail.Text.Utf8.{from_utf8}
use whalemail.Config.{Config}
use whalemail.UserDb.{UserDb}
use whalemail.Net.{IoError}
use whalemail.Smtp.Crates.{Crates, Env}
use whalemail.Smtp.Handle.{handle, kind_of, greet}
use whalemail.Smtp.State.{SmtpState, continue', quit'}

hex_digit : ℕ → ℕ
hex_digit n = if ltb n 10 then b'0' + n else b'a' + (n - 10)

-- format!("{:02x?}", x) of a byte
unfoldable pub hex_byte : ℕ → Text
unfolding hex_digit
hex_byte x = hex_digit (x / 16) ∷ hex_digit (x % 16) ∷ []

abbrev pub or_hex : List ℕ → Option Text → Text
or_hex bytes (some v) = v
or_hex bytes none = codes "Invalid unicode: " ++ join (codes " ") (map hex_byte bytes)

-- the text that the handler is given for the bytes of a read
unfoldable pub input_text : List ℕ → Text
unfolding from_utf8 hex_byte join
input_text bytes = or_hex bytes (from_utf8 bytes)

-- The loop has come to its end, or waits for the next read.
pub data Progress (Session : Type 0) : Type 0 where
  ended : Progress Session
  waiting : SmtpState Session → Progress Session

module _ {Session M : Type 0} (crates : Crates Session M) (config : Config) (db : UserDb) where
  abbrev pub Reads : Type 0
  Reads = List (Result IoError (List ℕ))

  abbrev pub proceed :
      (SmtpState Session → Action IoError Env (Progress Session))
      → SmtpState Session
      → Action IoError Env (Progress Session)
  proceed again s = elim (kind_of s) [ continue' ↦ again s | quit' ↦ pure ended ]

  -- A read of no bytes means that the client closed the connection.
  unfoldable pub socket_loop : SmtpState Session → Reads → Action IoError Env (Progress Session)
  socket_loop s [] = pure (waiting s)
  socket_loop s (err e ∷ reads) = fail e
  socket_loop s (ok [] ∷ reads) = pure ended
  socket_loop s (ok (b ∷ bytes) ∷ reads) =
      handle crates config db s (input_text (b ∷ bytes)) >>= proceed (λ s'. socket_loop s' reads)

  unfoldable pub server_loop : Reads → Action IoError Env (Progress Session)
  server_loop reads = do s ← greet crates config db; socket_loop s reads
