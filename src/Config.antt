-- ===== src/Config.antt =====
-- src/config.rs
pub mod Load
use whalemail.Text.{Text}
use whalemail.Prelude.{Option}

-- the newtype `Hostname(String)`
abbrev pub Hostname : Type 0
Hostname = Text

pub record MaildirConfig : Type 0 where
  pub user_maildir_path : Text

pub record UserDbConfig : Type 0 where
  pub hostname : Hostname
  pub postgres_database : Text
  pub postgres_username : Text
  pub postgres_password : Text

pub record Config : Type 0 where
  pub hostname : Hostname
  pub bind_ip : Text
  pub bind_ip_tls : Text
  pub cert_dir : Option Text
  pub trusted_ca_cert_dir : Option Text
  pub log_level : Text
  pub maildir_config : MaildirConfig
  pub userdb_config : UserDbConfig
