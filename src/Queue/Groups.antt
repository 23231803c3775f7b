-- ===== src/Queue/Groups.antt =====
-- An entry of the queue holds one group for each key of the map.
use whalemail.Prelude.{
  true, false, ◌≡◌, refl, sym, ap, ◌∙◌, some, List, [], ◌∷◌, ◌++◌, map, inl, inr, arith,
  append_assoc, append-nil, Option-cases, All,
}
use whalemail.Text.{Text, text_eq}
use whalemail.Text.Laws.{text_eq_refl}
use whalemail.Envelope.{MailAddress, Envelope}
use whalemail.MultiMap.{MultiMap, IsMultiMap, values_of, is_some, has, Distinct}
use whalemail.Queue.{Entry, Queue, take_groups, push_entry, add_domains, add}

module _ {M : Type 0} (mm : MultiMap MailAddress M) (laws : IsMultiMap mm) where
  unfoldable pub group_of : M → Text → List MailAddress
  group_of m d = values_of (mm.get_vec m d)

  abbrev HasAll : M → List Text → Type 0
  HasAll m ds = All (λ d. is_some (mm.get_vec m d) ≡ true) ds

  -- removing a key leaves the other keys' groups
  get_vec-remove_ne :
      (m : M) (d j : Text) → text_eq d j ≡ false → mm.get_vec (mm.remove m d).1 j ≡ mm.get_vec m j
  get_vec-remove_ne m d j h = ground (arith, laws.get_vec-remove m d j)

  HasAll-remove :
      (m : M) (d : Text) (ds : List Text)
      → has d ds ≡ false
      → HasAll m ds
      → HasAll (mm.remove m d).1 ds
  HasAll-remove m d [] h a = tt
  HasAll-remove m d (j ∷ ds) h a = (
    ap is_some (get_vec-remove_ne m d j (ground arith)) ∙ a.0,
    HasAll-remove m d ds (ground arith) a.1,
  )

  map-group_of-remove :
      (m : M) (d : Text) (ds : List Text)
      → has d ds ≡ false
      → map (group_of (mm.remove m d).1) ds ≡ map (group_of m) ds
  unfolding group_of
  map-group_of-remove m d [] h = refl
  map-group_of-remove m d (j ∷ ds) h =
      cc (get_vec-remove_ne m d j (ground arith), map-group_of-remove m d ds (ground arith))

  group_of-eq :
      (m : M) (d : Text) {vs : List MailAddress} → mm.get_vec m d ≡ some vs → group_of m d ≡ vs
  unfolding group_of
  group_of-eq m d e = ap values_of e

  take_groups-eq :
      (ds : List Text) (m : M) (groups : List (List MailAddress))
      → Distinct ds
      → HasAll m ds
      → take_groups mm ds m groups ≡ some (groups ++ map (group_of m) ds)
  unfolding take_groups
  take_groups-eq [] m groups u a = ap some (sym (append-nil groups))
  take_groups-eq (d ∷ ds) m groups u a = elim (Option-cases (mm.get_vec m d)) [
    | inl n ↦ ground arith
    | inr (vs, e) ↦
        rw (laws.remove_value m d ∙ e, take_groups)
          (take_groups-eq ds (mm.remove m d).1 (groups ++ vs ∷ []) u.1
              (HasAll-remove m d ds u.0 a.1)
            ∙ rw (map-group_of-remove m d ds u.0) (
                ap some (append_assoc groups (vs ∷ []) _)
                ∙ ap (λ v. some (groups ++ v ∷ map (group_of m) ds)) (sym (group_of-eq m d e))))
  ]

  HasAll-keys :
      (m : M) (ds : List Text)
      → ((d : Text) → has d ds ≡ true → is_some (mm.get_vec m d) ≡ true)
      → HasAll m ds
  HasAll-keys m [] h = tt
  HasAll-keys m (d ∷ ds) h =
      (h d (ground (arith, text_eq_refl d)), HasAll-keys m ds (λ j k. h j (ground arith)))

  -- no entry if there is no key, and otherwise one with a group for each key
  abbrev pub entries_for : Envelope → M → List Text → List Entry
  entries_for e m [] = []
  entries_for e m (d ∷ ds) = record { envelope = e; rcpt_groups = map (group_of m) (d ∷ ds) } ∷ []

  add_domains-eq :
      (q : Queue) (e : Envelope) (m : M) (ds : List Text)
      → Distinct ds
      → HasAll m ds
      → add_domains mm q e m ds ≡ some (record { entries = q.entries ++ entries_for e m ds })
  add_domains-eq q e m [] u a =
      ap (λ es. some (record { entries = es })) (sym (append-nil q.entries))
  add_domains-eq q e m (d ∷ ds) u a = ap (push_entry mm e q) (take_groups-eq (d ∷ ds) m [] u a)

  -- With a multimap that keeps its laws, adding never panics. A map with keys adds one entry at the
  -- end of the queue, with the group of each key in the order of the keys. A map without keys adds
  -- none.
  pub add-eq :
      (q : Queue) (e : Envelope) (m : M)
      → add mm q e m ≡ some (record { entries = q.entries ++ entries_for e m (mm.keys m) })
  unfolding add
  add-eq q e m =
      add_domains-eq q e m (mm.keys m) (laws.keys-Distinct m)
        (HasAll-keys m (mm.keys m) λ d h. sym (laws.has-keys m d) ∙ h)
