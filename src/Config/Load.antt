-- ===== src/Config/Load.antt =====
-- src/config.rs: `Config::load`. The INI file is read by a crate: `get` looks a name up in its general
-- section.
use whalemail.Prelude.{
  Bool, true, false, ◌&&◌, ◌≡◌, refl, Option, none, some, inl, inr, arith, Option-cases,
}
use whalemail.Prelude.Outcome.{Result, ok, err, ◌>>=◌}
use whalemail.Text.{Text, codes}
use whalemail.MultiMap.{is_some}
use whalemail.Config.{Config, Hostname}

pub data ConfigError : Type 0 where
  missing_config : Text → ConfigError

abbrev pub unwrap_or : Option Text → Text → Text
unwrap_or none d = d
unwrap_or (some s) d = s

abbrev pub ok_or : Option Text → Text → Result ConfigError Text
ok_or none name = err (missing_config name)
ok_or (some s) name = ok s

module _ (get : Text → Option Text) where
  abbrev pub hostname_of : Hostname
  hostname_of = unwrap_or (get (codes "hostname")) (codes "whalemail.tld")

  -- a missing database is reported by the name of the user
  unfoldable pub load : Result ConfigError Config
  load = do
    path ← ok_or (get (codes "user_maildir_path")) (codes "user_maildir_path")
    database ← ok_or (get (codes "postgres_database")) (codes "postgres_username")
    username ← ok_or (get (codes "postgres_username")) (codes "postgres_username")
    password ← ok_or (get (codes "postgres_password")) (codes "postgres_password")
    ok (record {
      hostname = hostname_of;
      bind_ip = unwrap_or (get (codes "bind_ip")) (codes "127.0.0.1:25");
      bind_ip_tls = unwrap_or (get (codes "bind_ip_tls")) (codes "127.0.0.1:465");
      cert_dir = get (codes "cert_dir");
      trusted_ca_cert_dir =
          some (unwrap_or (get (codes "trusted_ca_cert_dir")) (codes "/etc/ssl/certs"));
      log_level = unwrap_or (get (codes "log_level")) (codes "debug");
      maildir_config = record { user_maildir_path = path };
      userdb_config = record {
        hostname = hostname_of;
        postgres_database = database;
        postgres_username = username;
        postgres_password = password;
      };
    })

  abbrev pub is_ok : {E A : Type 0} → Result E A → Bool
  is_ok (ok a) = true
  is_ok (err e) = false

  -- Loading succeeds if and only if the file has the path of the maildirs and the database's name, user
  -- and password.
  pub is_ok-load : is_ok load ≡ (
      is_some (get (codes "user_maildir_path"))
      && (is_some (get (codes "postgres_database"))
          && (is_some (get (codes "postgres_username"))
              && is_some (get (codes "postgres_password")))))
  unfolding load
  is_ok-load = elim (Option-cases (get (codes "user_maildir_path"))) [
    | inl n ↦ ground arith
    | inr (p, e) ↦ elim (Option-cases (get (codes "postgres_database"))) [
      | inl n ↦ ground arith
      | inr (d, f) ↦ elim (Option-cases (get (codes "postgres_username"))) [
        | inl n ↦ ground arith
        | inr (u, g) ↦ elim (Option-cases (get (codes "postgres_password"))) [
          | inl n ↦ ground arith
          | inr (w, h) ↦ ground arith
        ]
      ]
    ]
  ]

  abbrev pub WithCerts : Result ConfigError Config → Type 0
  WithCerts (err e) = Unit
  WithCerts (ok config) =
      (config.cert_dir ≡ get (codes "cert_dir")) × (is_some config.trusted_ca_cert_dir ≡ true)

  -- The directory of the root certificates has a default, the one of the server's own certificates
  -- has none.
  pub load-WithCerts : WithCerts load
  unfolding load
  load-WithCerts = elim (Option-cases (get (codes "user_maildir_path"))) [
    | inl n ↦ rw n tt
    | inr (p, e) ↦ elim (Option-cases (get (codes "postgres_database"))) [
      | inl n ↦ rw (e, n) tt
      | inr (d, f) ↦ elim (Option-cases (get (codes "postgres_username"))) [
        | inl n ↦ rw (e, f, n) tt
        | inr (u, g) ↦ elim (Option-cases (get (codes "postgres_password"))) [
          | inl n ↦ rw (e, f, g, n) tt
          | inr (w, h) ↦ rw (e, f, g, h) (refl, refl)
        ]
      ]
    ]
  ]
