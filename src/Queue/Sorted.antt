-- ===== src/Queue/Sorted.antt =====
-- Queues whose groups can be delivered: what `SmtpClient::deliver` expects of a group.
use whalemail.Prelude.{
  false, ◌≡◌, ◌≢◌, subst, some, List, [], ◌∷◌, ◌++◌, All, All-left, All-right, pop_last,
  pop_last-eq,
}
use whalemail.Text.{Text}
use whalemail.Envelope.{MailAddress}
use whalemail.Queue.{Entry, Queue}

-- at least one recipient, and all of them at one remote domain
abbrev pub IsGroup : List MailAddress → Type 0
IsGroup g =
    (g ≢ []) × (d : Text) × All (λ a. (a.domain ≡ d) × (a.is_local_responsibility ≡ false)) g

abbrev pub EntryIsSorted : Entry → Type 0
EntryIsSorted e = All IsGroup e.rcpt_groups

abbrev pub IsSorted : Queue → Type 0
IsSorted q = All EntryIsSorted q.entries

-- the entry that is taken, and the rest
pub popped :
    (q : Queue) (entry : Entry) (rest : List Entry)
    → IsSorted q
    → pop_last q.entries ≡ some (entry, rest)
    → All IsGroup entry.rcpt_groups × IsSorted (record { entries = rest })
popped q entry rest h e = (last.0, All-left EntryIsSorted rest (entry ∷ []) all)
  where
    all : All EntryIsSorted (rest ++ entry ∷ [])
    all = subst (All EntryIsSorted) (pop_last-eq q.entries e) h

    last : All EntryIsSorted (entry ∷ [])
    last = All-right EntryIsSorted rest (entry ∷ []) all
