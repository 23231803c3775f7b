-- ===== src/Smtp/Outgoing/Sorted.antt =====
-- The groups of a mail can be delivered.
use whalemail.Prelude.{
  true, false, not, ◌≡◌, ◌≢◌, sym, subst, ◌∙◌, List, [], ◌∷◌, ◌++◌, map, All, All-append, arith,
}
use whalemail.Text.{Text}
use whalemail.Text.Laws.{text_eq_refl, eq_of_text_eq}
use whalemail.UserDb.{UserDb}
use whalemail.Envelope.{MailAddress, Envelope}
use whalemail.MultiMap.{IsMultiMap, has}
use whalemail.Queue.{Queue}
use whalemail.Queue.Sorted.{IsGroup, EntryIsSorted, IsSorted}
use whalemail.Smtp.Crates.{Crates, Env}
use whalemail.Smtp.Delivery.{is_nil, deliver_mail}
use whalemail.Smtp.Outgoing.Groups.{remote_to, remote_entries, deliver_mail-queue}

remote_to-All :
    (rs : List MailAddress) (d : Text)
    → All (λ a. (a.domain ≡ d) × (a.is_local_responsibility ≡ false)) (remote_to rs d)
unfolding remote_to
remote_to-All [] d = tt
remote_to-All (r ∷ rs) d = ground (arith, remote_to-All rs d, eq_of_text_eq r.domain d)

nil_of : (g : List MailAddress) → not (is_nil g) ≡ true → g ≢ []
nil_of [] e n = cc
nil_of (a ∷ g) e n = cc

groups-IsGroup :
    (rs : List MailAddress) (ds : List Text)
    → ((d : Text) → has d ds ≡ true → not (is_nil (remote_to rs d)) ≡ true)
    → All IsGroup (map (remote_to rs) ds)
groups-IsGroup rs [] h = tt
groups-IsGroup rs (d ∷ ds) h = (
  (nil_of (remote_to rs d) (h d (ground (arith, text_eq_refl d))), d, remote_to-All rs d),
  groups-IsGroup rs ds (λ j e. h j (ground arith)),
)

added-IsSorted :
    (q : Queue) (e : Envelope) (ds : List Text)
    → IsSorted q
    → ((d : Text) → has d ds ≡ not (is_nil (remote_to e.recipients d)))
    → All EntryIsSorted (q.entries ++ remote_entries e ds)
added-IsSorted q e [] h k = All-append EntryIsSorted q.entries [] h tt
added-IsSorted q e (d ∷ ds) h k =
    All-append EntryIsSorted q.entries (remote_entries e (d ∷ ds)) h
      (groups-IsGroup e.recipients (d ∷ ds) (λ j g. sym (k j) ∙ g), tt)

module _ {Session M : Type 0} (crates : Crates Session M) (db : UserDb)
    (laws : IsMultiMap crates.multimap) where
  pub deliver_mail-IsSorted :
      (e : Envelope) (env : Env)
      → IsSorted env.queue
      → IsSorted (deliver_mail crates db e env).1.queue
  deliver_mail-IsSorted e env h =
      let (ds, distinct, keys, q) = deliver_mail-queue crates db laws e env in
      subst IsSorted (sym q) (added-IsSorted env.queue e ds h keys)
