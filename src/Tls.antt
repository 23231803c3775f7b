-- ===== src/Tls.antt =====
-- src/tls.rs. The directory, the PEM files and the TLS library are parameters; a panic is the outcome
-- `panicked`.
use whalemail.Prelude.{ℕ, Option, none, some, List, [], ◌∷◌, ◌++◌, reverse, if◌then◌else◌}
use whalemail.Prelude.Outcome.{Result, ok, err, ◌>>=◌}
use whalemail.Prelude.Action.{Outcome, done, failed, panicked}
use whalemail.Text.{Text, codes, ends_with}
use whalemail.Config.{Config}
use whalemail.Net.{IoError}

-- the error of the PEM parser, as a number
pub data CertError : Type 0 where
  io_error : IoError → CertError
  pem_error : ℕ → CertError
  os_error : Text → CertError

-- `none` for a name that is not UTF-8
pub record DirEntry : Type 0 where
  pub file_name : Option Text
  pub path : Text

pub record TlsFiles (Cert Key Store Acceptor : Type 0) : Type 0 where
  pub read_dir : Text → Result IoError (List (Result IoError DirEntry))
  pub pem_file_iter : Text → Result ℕ (List (Result ℕ Cert))
  pub private_key : Text → Result ℕ Key
  pub empty : Store
  pub add : Store → Cert → Option Store
  pub with_single_cert : List Cert → Key → Option Acceptor
  pub path_push : Text → Text → Text

module _ {Cert Key Store Acceptor : Type 0} (files : TlsFiles Cert Key Store Acceptor) where
  abbrev pub unreadable : Text → Text
  unreadable dir = codes "Unable to read file name from '" ++ (dir ++ codes "'")

  -- the closure that pushes the certificates of one file
  unfoldable pub push_certs : List (Result ℕ Cert) → List Cert → Result CertError (List Cert)
  push_certs [] certs = ok certs
  push_certs (err e ∷ cs) certs = err (pem_error e)
  push_certs (ok c ∷ cs) certs = push_certs cs (certs ++ c ∷ [])

  abbrev pub push_file : Result ℕ (List (Result ℕ Cert)) → List Cert → Result CertError (List Cert)
  push_file (err e) certs = err (pem_error e)
  push_file (ok cs) certs = push_certs cs certs

  abbrev pub read_named : Text → Option Text → Text → List Cert → Result CertError (List Cert)
  read_named dir none path certs = err (os_error (unreadable dir))
  read_named dir (some name) path certs =
      if ends_with name (codes ".pem") then push_file (files.pem_file_iter path) certs else ok certs

  -- the loop over the directory
  unfoldable pub read_entries :
      Text → List (Result IoError DirEntry) → List Cert → Result CertError (List Cert)
  read_entries dir [] certs = ok certs
  read_entries dir (err e ∷ es) certs = err (io_error e)
  read_entries dir (ok d ∷ es) certs =
      read_named dir d.file_name d.path certs >>= λ certs'. read_entries dir es certs'

  -- `while let Some(cert) = ca_certs.pop()`, over the certificates from the last one on
  unfoldable pub add_certs : List Cert → Store → Outcome CertError Store
  add_certs [] store = done store
  add_certs (c ∷ cs) store = elim (files.add store c) [
    | none ↦ panicked
    | some store' ↦ add_certs cs store'
  ]

  abbrev pub fill_store : Result CertError (List Cert) → Outcome CertError Store
  fill_store (err e) = failed e
  fill_store (ok certs) = add_certs (reverse certs) files.empty

  abbrev pub read_dir_entries :
      Text → Result IoError (List (Result IoError DirEntry)) → Outcome CertError Store
  read_dir_entries dir (err e) = failed (io_error e)
  read_dir_entries dir (ok es) = fill_store (read_entries dir es [])

  unfoldable pub read_ca_certs : Text → Outcome CertError Store
  read_ca_certs dir = read_dir_entries dir (files.read_dir dir)

  unfoldable pub all_certs : List (Result ℕ Cert) → Option (List Cert)
  all_certs [] = some []
  all_certs (err e ∷ cs) = none
  all_certs (ok c ∷ cs) = elim (all_certs cs) [ none ↦ none | some ds ↦ some (c ∷ ds) ]

  -- `none` is a panic
  unfoldable pub read_certs : Text → Option (List Cert)
  read_certs file = elim (files.pem_file_iter file) [ err e ↦ none | ok cs ↦ all_certs cs ]

  abbrev pub in_dir : Text → Text → Text
  in_dir dir name = files.path_push (files.path_push [] dir) name

  abbrev pub with_key : List Cert → Result ℕ Key → Option Acceptor
  with_key certs (err e) = none
  with_key certs (ok key) = files.with_single_cert certs key

  abbrev pub with_certs : Text → Option (List Cert) → Option Acceptor
  with_certs cert_dir none = none
  with_certs cert_dir (some certs) =
      with_key certs (files.private_key (in_dir cert_dir (codes "privkey.pem")))

  -- the root certificates are read, and are not handed to the acceptor
  unfoldable pub build_tls_acceptor : Text → Text → Option Acceptor
  build_tls_acceptor cert_dir ca_dir = elim (read_ca_certs ca_dir) [
    | done store ↦ with_certs cert_dir (read_certs (in_dir cert_dir (codes "fullchain.pem")))
    | failed e ↦ none
    | panicked ↦ none
  ]

  abbrev pub checked_key : Store → Result ℕ Key → Option Store
  checked_key store (err e) = none
  checked_key store (ok key) = some store

  abbrev pub with_store : Text → Outcome CertError Store → Option Store
  with_store cert_dir (done store) =
      checked_key store (files.private_key (in_dir cert_dir (codes "privkey.pem")))
  with_store cert_dir _ = none

  abbrev pub connector_for : Option Text → Option Text → Option Store
  connector_for none ca_dir = none
  connector_for (some cert_dir) none = none
  connector_for (some cert_dir) (some ca_dir) = with_store cert_dir (read_ca_certs ca_dir)

  -- the connector's root certificates; the private key is read, and is not handed to the connector
  unfoldable pub build_tls_connector : Config → Option Store
  build_tls_connector config = connector_for config.cert_dir config.trusted_ca_cert_dir
