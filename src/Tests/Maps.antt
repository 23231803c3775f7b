-- ===== src/Tests/Maps.antt =====
-- A concrete multimap: an association list whose first entry for a key counts.
use whalemail.Prelude.{
  Bool, true, false, ◌≡◌, ◌↔◌, refl, ◌∙◌, Option, none, some, List, [], ◌∷◌, ◌++◌, if◌then◌else◌,
  arith, inl, inr, Bool-cases,
}
use whalemail.Text.{Text, text_eq}
use whalemail.Text.Laws.{text_eq_iff, text_eq_refl}
use whalemail.MultiMap.{MultiMap, IsMultiMap, values_of, is_some, has, Distinct}

abbrev pub Assoc : Type 0 → Type 0
Assoc V = List (Text × List V)

drop_key : Text → List Text → List Text
drop_key k [] = []
drop_key k (j ∷ js) = let rest = drop_key k js in if text_eq k j then rest else j ∷ rest

has-drop_key :
    (k j : Text) (ks : List Text)
    → has j (drop_key k ks) ≡ (if text_eq k j then false else has j ks)
unfolding drop_key
has-drop_key k j [] = ground arith
has-drop_key k j (i ∷ ks) =
    ground (arith, has-drop_key k j ks, text_eq_iff k i, text_eq_iff j i, text_eq_iff k j)

Distinct-drop_key : (k : Text) (ks : List Text) → Distinct ks → Distinct (drop_key k ks)
unfolding drop_key
Distinct-drop_key k [] u = tt
Distinct-drop_key k (j ∷ ks) u = elim (Bool-cases (text_eq k j)) [
  | inl y ↦ rw (y, drop_key) (Distinct-drop_key k ks u.1)
  | inr n ↦ rw (n, drop_key) (ground (arith, has-drop_key k j ks), Distinct-drop_key k ks u.1)
]

module _ {V : Type 0} where
  unfoldable pub find : Assoc V → Text → Option (List V)
  find [] k = none
  find ((j, vs) ∷ m) k = if text_eq j k then some vs else find m k

  unfoldable pub without : Assoc V → Text → Assoc V
  without [] k = []
  without ((j, vs) ∷ m) k = let rest = without m k in if text_eq j k then rest else (j, vs) ∷ rest

  unfoldable pub push : Assoc V → Text → V → Assoc V
  unfolding find without
  push m k v = (k, values_of (find m k) ++ v ∷ []) ∷ without m k

  unfoldable pub keys_of : Assoc V → List Text
  unfolding drop_key
  keys_of [] = []
  keys_of ((j, vs) ∷ m) = j ∷ drop_key j (keys_of m)

  unfoldable pub is_nil : Assoc V → Bool
  is_nil [] = true
  is_nil (p ∷ m) = false

  find-without :
      (m : Assoc V) (k j : Text) → find (without m k) j ≡ (if text_eq k j then none else find m j)
  unfolding find without
  find-without [] k j = ground arith
  find-without ((i, vs) ∷ m) k j =
      ground (arith, find-without m k j, text_eq_iff i k, text_eq_iff i j, text_eq_iff k j)

  find-push :
      (m : Assoc V) (k j : Text) (v : V)
      → find (push m k v) j
        ≡ (if text_eq k j then some (values_of (find m k) ++ v ∷ []) else find m j)
  unfolding find push
  find-push m k j v = ground (arith, find-without m k j)

  has-keys_of : (m : Assoc V) (k : Text) → has k (keys_of m) ≡ is_some (find m k)
  unfolding keys_of find
  has-keys_of [] k = refl
  has-keys_of ((j, vs) ∷ m) k =
      ground
        (arith, has-keys_of m k, has-drop_key j k (keys_of m), text_eq_iff j k, text_eq_iff k j)

  keys_of-Distinct : (m : Assoc V) → Distinct (keys_of m)
  unfolding keys_of
  keys_of-Distinct [] = tt
  keys_of-Distinct ((j, vs) ∷ m) = (
    has-drop_key j j (keys_of m) ∙ ground (arith, text_eq_refl j),
    Distinct-drop_key j (keys_of m) (keys_of-Distinct m),
  )

  is_nil_iff : (m : Assoc V) → (is_nil m ≡ true) ↔ (keys_of m ≡ [])
  unfolding is_nil keys_of
  is_nil_iff [] = (λ _. refl, λ _. refl)
  is_nil_iff ((j, vs) ∷ m) = (λ e. cc, λ e. cc)

  abbrev pub assoc_map : MultiMap V (Assoc V)
  assoc_map = record {
    new = [];
    insert = push;
    is_empty = is_nil;
    keys = keys_of;
    get_vec = find;
    remove = λ m k. (find m k, without m k);
  }

  pub assoc_map-IsMultiMap : IsMultiMap assoc_map
  assoc_map-IsMultiMap = record {
    get_vec-new = λ k. unfold find in refl;
    get_vec-insert = find-push;
    remove_value = λ m k. refl;
    get_vec-remove = find-without;
    has-keys = has-keys_of;
    keys-Distinct = keys_of-Distinct;
    is_empty_iff = is_nil_iff;
  }
