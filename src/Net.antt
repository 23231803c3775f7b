-- ===== src/Net.antt =====
-- src/net.rs: `ConnectionHandler::send` over a socket. The socket itself is the environment's: it
-- answers the n-th call of `write` with a count of bytes or an error.
use whalemail.Prelude.{ℕ, List, [], ◌∷◌, ◌++◌, length, ltb, if◌then◌else◌}
use whalemail.Prelude.Outcome.{Result, ok, err}
use whalemail.Prelude.Action.{Outcome, done, failed}
use whalemail.Text.{Text, byte_length}

-- `other` is what the program makes itself, `os` what the system reports.
pub data IoError : Type 0 where
  os : ℕ → IoError
  short_write : ℕ → ℕ → IoError

pub record Socket : Type 0 where
  pub written : List Text
  pub answers : ℕ → Result IoError ℕ

abbrev pub sent : Text → Result IoError ℕ → Outcome IoError (Unit {0})
sent msg (err e) = failed e
sent msg (ok n) =
    if ltb n (byte_length msg) then failed (short_write (byte_length msg) n) else done tt

-- `socket.write(msg)`, and an error if fewer bytes were written
unfoldable pub send_to : Text → Socket → Outcome IoError (Unit {0}) × Socket
unfolding byte_length
send_to msg k =
    (sent msg (k.answers (length k.written)), record k { written = k.written ++ msg ∷ [] })
