-- ===== src/Maildir.antt =====
-- src/maildir.rs: `Storage`. The file system and the monotonic clock are the environment's.
pub mod Names
pub mod Stored
use whalemail.Prelude.{
  ℕ, zero, suc, Option, none, some, ◌+◌, ◌-◌, ◌/◌, ◌%◌, List, [], ◌∷◌, ◌++◌, length, ltb,
  if◌then◌else◌,
}
use whalemail.Prelude.Outcome.{Result}
use whalemail.Prelude.Action.{Action, lift, panic, ◌>>◌}
use whalemail.Text.{Text, codes, ends_with, replace}
use whalemail.Config.{Hostname, MaildirConfig}
use whalemail.Envelope.{MailAddress, Envelope}
use whalemail.Net.{IoError}

pub data DiskCall : Type 0 where
  create_dir_all : Text → DiskCall
  write : Text → Text → DiskCall

-- The calls so far, oldest first, what the n-th call answers, and what a monotonic clock shows
-- before it, in nanoseconds.
pub record Disk : Type 0 where
  pub calls : List DiskCall
  pub answers : ℕ → Result IoError (Unit {0})
  pub instant : ℕ → ℕ

pub record Storage : Type 0 where
  pub hostname : Hostname
  pub config : MaildirConfig
  pub base_instant : ℕ
  pub disk : Disk

unfoldable pub disk_call : DiskCall → Action IoError Storage (Unit {0})
disk_call c s =
    lift (s.disk.answers (length s.disk.calls))
      (record s { disk = record s.disk { calls = s.disk.calls ++ c ∷ [] } })

-- the decimal digits of a number; `n + 1` rounds are enough
unfoldable pub digits : ℕ → ℕ → Text → Text
digits zero n s = s
digits (suc fuel) n s =
    let more = digits fuel (n / 10) ((48 + n % 10) ∷ s) in if ltb n 10 then (48 + n) ∷ s else more

unfoldable pub decimal : ℕ → Text
unfolding digits
decimal n = digits (suc n) n []

-- String::pop
unfoldable pub pop_char : Text → Text
pop_char [] = []
pop_char (c ∷ []) = []
pop_char (c ∷ d ∷ s) = c ∷ pop_char (d ∷ s)

-- `path_push` is `Utf8PathBuf::push`
module _ (path_push : Text → Text → Text) where
  unfoldable pub build_new_dir : Storage → Text → MailAddress → Text
  unfolding ends_with replace pop_char
  build_new_dir s mailbox_home recipient =
      let home =
        if ends_with mailbox_home (codes "/") then pop_char mailbox_home else mailbox_home in
      let r = replace s.config.user_maildir_path (codes "%{mailboxhome}") home in
      let r = replace r (codes "%{user}") recipient.address in
      let r = replace r (codes "%{hostname}") s.hostname in path_push r (codes "new")

-- `unix_time n` is what the system clock shows before the n-th call of the file system, in seconds
-- since 1970, and `none` if it shows an earlier time, when `expect` panics.
module _ (path_push : Text → Text → Text) (unix_time : ℕ → Option ℕ) where
  abbrev pub name_at : Storage → Option ℕ → Option Text
  name_at s none = none
  name_at s (some seconds) = some (
      decimal seconds
      ++ (codes "."
          ++ (s.hostname
              ++ (codes ".M"
                  ++ decimal ((s.disk.instant (length s.disk.calls) - s.base_instant) / 1000000)))))

  -- seconds, host name and milliseconds since the storage was made
  unfoldable pub maildir_file_name : Storage → Option Text
  unfolding decimal
  maildir_file_name s = name_at s (unix_time (length s.disk.calls))

  abbrev pub write_named : Text → Text → Option Text → Action IoError Storage (Unit {0})
  write_named dir body none = panic
  write_named dir body (some name) = disk_call (write (path_push dir name) body)

  -- the file is named after the directory is made
  abbrev pub write_mail : Text → Text → Action IoError Storage (Unit {0})
  write_mail dir body s = write_named dir body (maildir_file_name s) s

  unfoldable pub store : Envelope → MailAddress → Text → Action IoError Storage (Unit {0})
  unfolding disk_call build_new_dir maildir_file_name
  store mail rcpt mailbox_home s =
      (do
        disk_call (create_dir_all (build_new_dir path_push s mailbox_home rcpt))
        write_mail (build_new_dir path_push s mailbox_home rcpt) mail.body)
        s
