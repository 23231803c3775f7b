-- ===== src/Client/Errors.antt =====
-- `ClientError` and `RemoteDeliveryError` of src/smtp/error.rs.
use whalemail.Prelude.{ℕ}
use whalemail.Text.{Text}
use whalemail.Net.{IoError}

-- what the DNS library reports, as a number
pub data ResolveError : Type 0 where
  resolve_error : ℕ → ResolveError

pub data ClientError : Type 0 where
  dns_lookup_error : ResolveError → ClientError
  io_error : IoError → ClientError
  no_smtp_host_error : ClientError
  smtp_error : Text → ClientError
  timeout : ClientError

pub data RemoteDeliveryError : Type 0 where
  no_smtp_host_found : ClientError → RemoteDeliveryError
  io_error : IoError → RemoteDeliveryError
  smtp_error : Text → RemoteDeliveryError
  timeout : RemoteDeliveryError

-- `impl From<ResolveError> for ClientError`
unfoldable pub from_resolve_error : ResolveError → ClientError
from_resolve_error e = ClientError.dns_lookup_error e

-- `impl From<io::Error> for ClientError`
unfoldable pub from_io_error : IoError → ClientError
from_io_error e = ClientError.io_error e

-- `impl From<ClientError> for RemoteDeliveryError`
unfoldable pub from_client_error : ClientError → RemoteDeliveryError
from_client_error ClientError.no_smtp_host_error =
    RemoteDeliveryError.no_smtp_host_found ClientError.no_smtp_host_error
from_client_error (ClientError.dns_lookup_error e) =
    RemoteDeliveryError.no_smtp_host_found (ClientError.dns_lookup_error e)
from_client_error (ClientError.io_error e) = RemoteDeliveryError.io_error e
from_client_error (ClientError.smtp_error msg) = RemoteDeliveryError.smtp_error msg
from_client_error ClientError.timeout = RemoteDeliveryError.timeout
