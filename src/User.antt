-- ===== src/User.antt =====
-- src/user.rs, and `Authorized` of src/auth.rs.
use whalemail.Text.{Text}
use whalemail.Config.{Hostname}

pub record User : Type 0 where
  pub hostname : Hostname
  pub identity : Text
  pub username : Text

pub record Authorized : Type 0 where
  pub hostname : Hostname
  pub identity : Text
  pub username : Text

-- `impl From<Authorized> for User`
unfoldable pub from_authorized : Authorized → User
from_authorized a = record { hostname = a.hostname; identity = a.identity; username = a.username }
