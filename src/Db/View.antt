-- ===== src/Db/View.antt =====
-- `View` of src/db/view.rs: a map from keys to values with an ordered index from values to keys.
pub mod Consistent
use gresse.Prelude.{
  ℕ, Bool, true, false, not, ◌&&◌, Option, none, some, List, [], ◌∷◌, ◌++◌, ite, if◌then◌else◌, Key,
  Ord, take, length,
}
use gresse.Map
use gresse.Map.{Map}
use gresse.Set
use gresse.Db.Index.{discard, insert_entry, is_nil}

pub record View (K V : Type 0) : Type 0 where
  pub key_to_value : Map K V
  pub value_to_keys : Map V (List K)

module _ {K V : Type 0} ⦃key : Key K⦄ ⦃value : Key V⦄ ⦃ord : Ord V⦄ where
  unfoldable pub new : View K V
  new = record { key_to_value = Map.empty; value_to_keys = Map.empty }

  unfoldable pub len : View K V → ℕ
  len view = length view.key_to_value

  unfoldable pub is_empty : View K V → Bool
  is_empty view = elim view.key_to_value [ [] ↦ true | _ ∷ _ ↦ false ]

  unfoldable pub to_vec : View K V → List (K × V)
  to_vec view = view.key_to_value

  -- The key leaves the set of its old value.
  abbrev drop_old : K → Option V → Map V (List K) → Map V (List K)
  drop_old k none index = index
  drop_old k (some old) index = discard old k index

  -- `entry(value).or_default().insert(key)` on the ordered map.
  abbrev pub add_key : V → K → Map V (List K) → Map V (List K)
  add_key v k index = elim (Map.get v index) [
    | none ↦ insert_entry ord.le v (Set.insert k []) index
    | some ks ↦ Map.insert v (Set.insert k ks) index
  ]

  unfoldable pub insert : K → V → View K V → View K V
  insert k v view = record {
    key_to_value = Map.insert k v view.key_to_value;
    value_to_keys = add_key v k (drop_old k (Map.get k view.key_to_value) view.value_to_keys);
  }

  unfoldable pub insert_values : List (K × V) → View K V → View K V
  insert_values [] view = view
  insert_values ((k, v) ∷ values) view = insert_values values (insert k v view)

  unfoldable pub remove_by_key : K → View K V → View K V × Bool
  remove_by_key k view = elim (Map.get k view.key_to_value) [
    | none ↦ (record view { key_to_value = Map.remove k view.key_to_value }, false)
    | some v ↦ (
      record {
        key_to_value = Map.remove k view.key_to_value;
        value_to_keys = discard v k view.value_to_keys;
      },
      true,
    )
  ]

  unfoldable pub remove_keys : List K → Map K V → Map K V
  remove_keys [] m = m
  remove_keys (k ∷ ks) m = remove_keys ks (Map.remove k m)

  unfoldable pub remove_by_value : V → View K V → View K V
  remove_by_value v view = elim (Map.get v view.value_to_keys) [
    | none ↦ view
    | some ks ↦ record {
      key_to_value = remove_keys ks view.key_to_value;
      value_to_keys = Map.remove v view.value_to_keys;
    }
  ]

  unfoldable pub get_value : K → View K V → Option V
  get_value k view = Map.get k view.key_to_value

  unfoldable pub get_keys_by_value : V → View K V → Option (List K)
  get_keys_by_value v view = Map.get v view.value_to_keys

  -- The half-open range from `lo` to `hi`.
  unfoldable pub range_query : V → V → View K V → Map V (List K)
  range_query lo hi view = Map.filter (λ v _. ord.le lo v && not (ord.le hi v)) view.value_to_keys

  abbrev pairs : V → List K → List (V × K)
  pairs v [] = []
  pairs v (k ∷ ks) = (v, k) ∷ pairs v ks

  unfoldable pub flat_pairs : Map V (List K) → List (V × K)
  flat_pairs [] = []
  flat_pairs ((v, ks) ∷ index) = pairs v ks ++ flat_pairs index

  unfoldable pub min_k : ℕ → View K V → List (V × K)
  min_k k view = take k (flat_pairs view.value_to_keys)
