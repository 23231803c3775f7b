-- ===== src/Client/Network.antt =====
-- The network that the client works on: the calls so far, oldest first, and what the n-th call
-- answers. `Connection`, and `ConnectionHandler::connect` and `read` of src/net.rs.
use whalemail.Prelude.{ℕ, Option, none, some, List, [], ◌∷◌, ◌++◌, length}
use whalemail.Prelude.Outcome.{Result, ok, err}
use whalemail.Prelude.Action.{Action}
use whalemail.Text.{Text}
use whalemail.Text.Lossy.{from_utf8_lossy}
use whalemail.Net.{IoError, sent}
use whalemail.Client.Errors.{ResolveError}

pub data Security : Type 0 where
  tls tcp : Security

-- `Connection`, with the host that it leads to
pub record Connection : Type 0 where
  pub security : Security
  pub host : Text

pub data NetCall : Type 0 where
  build_resolver : NetCall
  mx_lookup connect tls_connect : Text → NetCall
  write : Connection → Text → NetCall
  read : Connection → NetCall

-- Where the source sets a time limit, `none` means that it passes during the call.
pub record Network : Type 0 where
  pub calls : List NetCall
  pub resolver : ℕ → Result ResolveError (Unit {0})
  pub mx : ℕ → Result ResolveError (List (ℕ × Text))
  pub connects : ℕ → Option (Result IoError (Unit {0}))
  pub handshakes : ℕ → Option (Result IoError (Unit {0}))
  pub writes : ℕ → Result IoError ℕ
  pub reads : ℕ → Option (Result IoError (List ℕ))

abbrev pub now : Network → ℕ
now w = length w.calls

abbrev pub log : NetCall → Network → Network
log c w = record w { calls = w.calls ++ c ∷ [] }

-- `Connection::send`
unfoldable pub send : Connection → Text → Action IoError Network (Unit {0})
send conn msg w = (sent msg (w.writes (now w)), log (write conn msg) w)

abbrev pub text_of : Option (Result IoError (List ℕ)) → Option (Result IoError Text)
text_of none = none
text_of (some (err e)) = some (err e)
text_of (some (ok [])) = some (ok [])
text_of (some (ok (b ∷ bytes))) = some (ok (from_utf8_lossy (b ∷ bytes)))

-- `Connection::read` under a time limit
unfoldable pub read_reply : Connection → Network → Option (Result IoError Text) × Network
read_reply conn w = (text_of (w.reads (now w)), log (read conn) w)

-- `ConnectionHandler::connect` under a time limit: the answer is that of the connection and of the
-- query of its address behind it
unfoldable pub connect_to : Text → Network → Option (Result IoError (Unit {0})) × Network
connect_to host w = (w.connects (now w), log (connect host) w)

-- `TlsConnector::connect` under a time limit
unfoldable pub handshake : Text → Network → Option (Result IoError (Unit {0})) × Network
handshake host w = (w.handshakes (now w), log (tls_connect host) w)
