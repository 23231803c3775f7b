-- ===== src/Maildir/Stored.antt =====
-- What `Storage::store` asks of the file system when every call succeeds.
use whalemail.Prelude.{
  Option, none, some, Option-cases, inl, inr, ◌≢◌, length, ℕ, ◌≡◌, refl, ap, ◌∙◌, List, [], ◌∷◌,
  ◌++◌, append_assoc,
}
use whalemail.Prelude.Outcome.{ok}
use whalemail.Prelude.Action.{done, lift, continue}
use whalemail.Text.{Text}
use whalemail.Envelope.{MailAddress, Envelope}
use whalemail.Maildir.{
  DiskCall, create_dir_all, write, Storage, disk_call, build_new_dir, maildir_file_name, write_mail,
  write_named, name_at, store,
}

abbrev pub Answering : Storage → Type 0
Answering s = (n : ℕ) → s.disk.answers n ≡ ok tt

abbrev pub with_calls : Storage → List DiskCall → Storage
with_calls s cs = record s { disk = record s.disk { calls = cs } }

disk_call-Answering :
    (c : DiskCall) (s : Storage)
    → Answering s
    → disk_call c s ≡ (done tt, with_calls s (s.disk.calls ++ c ∷ []))
unfolding disk_call
disk_call-Answering c s h = ap (λ r. lift r (with_calls s (s.disk.calls ++ c ∷ []))) (h _)

-- The directory is made and the mail written to a file in it.
abbrev pub Stores :
    (Text → Text → Text) → Storage → Text → MailAddress → Text → List DiskCall → Type 0
Stores path_push s body rcpt home cs =
    (name : Text) × (cs
      ≡ create_dir_all (build_new_dir path_push s home rcpt)
        ∷ write (path_push (build_new_dir path_push s home rcpt) name) body
        ∷ [])

-- the system clock never shows a time before 1970
abbrev pub HasClock : (ℕ → Option ℕ) → Type 0
HasClock unix_time = (n : ℕ) → unix_time n ≢ none

pub store-Stores :
    (path_push : Text → Text → Text) (unix_time : ℕ → Option ℕ) (mail : Envelope)
    (rcpt : MailAddress) (home : Text) (s : Storage)
    → HasClock unix_time
    → Answering s
    → (cs : List DiskCall) × Stores path_push s mail.body rcpt home cs
      × (store path_push unix_time mail rcpt home s ≡ (done tt, with_calls s (s.disk.calls ++ cs)))
unfolding store maildir_file_name
store-Stores path_push unix_time mail rcpt home s clock h =
    elim (Option-cases (unix_time (length between.disk.calls))) [
      | inl n ↦ absurd (clock _ n)
      | inr (seconds, e) ↦ by_name _ (ap (name_at path_push unix_time between) e)
    ]
  where
    dir : Text
    dir = build_new_dir path_push s home rcpt

    made : DiskCall
    made = create_dir_all dir

    between : Storage
    between = with_calls s (s.disk.calls ++ made ∷ [])

    by_name :
        (name : Text)
        → maildir_file_name path_push unix_time between ≡ some name
        → (cs : List DiskCall) × Stores path_push s mail.body rcpt home cs
          × (store path_push unix_time mail rcpt home s
              ≡ (done tt, with_calls s (s.disk.calls ++ cs)))
    by_name name e = (
      made ∷ write (path_push dir name) mail.body ∷ [],
      (name, refl),
      ap (λ r. continue r.0 (λ _. write_mail path_push unix_time dir mail.body) r.1)
            (disk_call-Answering made s h)
          ∙ ap (λ o. write_named path_push unix_time dir mail.body o between) e
          ∙ disk_call-Answering (write (path_push dir name) mail.body) between h
          ∙ ap (λ cs. (done tt, with_calls s cs))
              (append_assoc s.disk.calls (made ∷ []) (write (path_push dir name) mail.body ∷ [])),
    )
