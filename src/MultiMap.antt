-- ===== src/MultiMap.antt =====
-- The crate `multimap`, as far as the queue and the server use it: a map from a key to the values
-- inserted under it, whose keys come in an order that the crate leaves open.
use whalemail.Prelude.{
  Bool, true, false, ◌||◌, ◌≡◌, ◌↔◌, Option, none, some, List, [], ◌∷◌, ◌++◌, if◌then◌else◌,
}
use whalemail.Text.{Text, text_eq}

pub record MultiMap (V M : Type 0) : Type 0 where
  pub new : M
  pub insert : M → Text → V → M
  pub is_empty : M → Bool
  pub keys : M → List Text
  pub get_vec : M → Text → Option (List V)
  pub remove : M → Text → Option (List V) × M

abbrev pub values_of : {V : Type 0} → Option (List V) → List V
values_of none = []
values_of (some vs) = vs

abbrev pub is_some : {A : Type 0} → Option A → Bool
is_some none = false
is_some (some a) = true

abbrev pub has : Text → List Text → Bool
has k [] = false
has k (j ∷ js) = text_eq k j || has k js

-- no key comes twice
abbrev pub Distinct : List Text → Type 0
Distinct [] = Unit
Distinct (k ∷ ks) = (has k ks ≡ false) × Distinct ks

-- what the crate documents
pub record IsMultiMap {V M : Type 0} (mm : MultiMap V M) : Type 0 where
  pub get_vec-new : (k : Text) → mm.get_vec mm.new k ≡ none
  pub get_vec-insert :
      (m : M) (k j : Text) (v : V)
      → mm.get_vec (mm.insert m k v) j
        ≡ (if text_eq k j then some (values_of (mm.get_vec m k) ++ v ∷ []) else mm.get_vec m j)
  pub remove_value : (m : M) (k : Text) → (mm.remove m k).0 ≡ mm.get_vec m k
  pub get_vec-remove :
      (m : M) (k j : Text)
      → mm.get_vec (mm.remove m k).1 j ≡ (if text_eq k j then none else mm.get_vec m j)
  pub has-keys : (m : M) (k : Text) → has k (mm.keys m) ≡ is_some (mm.get_vec m k)
  pub keys-Distinct : (m : M) → Distinct (mm.keys m)
  pub is_empty_iff : (m : M) → (mm.is_empty m ≡ true) ↔ (mm.keys m ≡ [])
