-- ===== src/Map/Defs.antt =====
-- The operations of `HashMap` that the source calls.
use gresse.Prelude.{
  Key, ite, Option, none, some, Bool, true, false, List, [], ◌∷◌, if◌then◌else◌, length, ℕ_discrete,
}

abbrev pub Map {ℓ} : Type ℓ → Type ℓ → Type ℓ
Map K V = List (K × V)

abbrev pub empty {ℓ} : {K V : Type ℓ} → Map K V
empty = []

module _ {ℓ} {K V : Type ℓ} where
  abbrev pub keys : Map K V → List K
  keys [] = []
  keys ((k, _) ∷ m) = k ∷ keys m

  abbrev pub values : Map K V → List V
  values [] = []
  values ((_, v) ∷ m) = v ∷ values m

  -- `retain`: the entries that pass the test.
  unfoldable pub filter : (K → V → Bool) → Map K V → Map K V
  filter test [] = []
  filter test ((k, v) ∷ m) = let rest = filter test m in if test k v then (k, v) ∷ rest else rest

  -- `values_mut`: every value changed in place.
  unfoldable pub map_values : (V → V) → Map K V → Map K V
  map_values f [] = []
  map_values f ((k, v) ∷ m) = (k, f v) ∷ map_values f m

module _ {ℓ} {K V : Type ℓ} ⦃key : Key K⦄ where
  unfoldable pub get : K → Map K V → Option V
  get k [] = none
  get k ((j, v) ∷ m) = ite (key.dec j k) (some v) (get k m)

  unfoldable pub contains_key : K → Map K V → Bool
  contains_key k m = elim (get k m) [ none ↦ false | some _ ↦ true ]

  unfoldable pub insert : K → V → Map K V → Map K V
  insert k v [] = (k, v) ∷ []
  insert k v ((j, w) ∷ m) = ite (key.dec j k) ((k, v) ∷ m) ((j, w) ∷ insert k v m)

  unfoldable pub remove : K → Map K V → Map K V
  remove k [] = []
  remove k ((j, v) ∷ m) = let rest = remove k m in ite (key.dec j k) rest ((j, v) ∷ rest)

  -- `entry(k).and_modify(f).or_insert(d)`.
  unfoldable pub upsert : K → (V → V) → V → Map K V → Map K V
  upsert k f d m = elim (get k m) [ none ↦ insert k d m | some v ↦ insert k (f v) m ]

module _ {ℓ} {K V : Type ℓ} ⦃key : Key K⦄ ⦃value : Key V⦄ where
  -- Whether every entry of the first stands in the second.
  unfoldable pub is_submap : Map K V → Map K V → Bool
  is_submap [] n = true
  is_submap ((k, v) ∷ m) n = elim (get k n) [
    | none ↦ false
    | some w ↦ ite (value.dec v w) (is_submap m n) false
  ]

  -- `==`: as many entries, and each of the first in the second.
  unfoldable pub eq : Map K V → Map K V → Bool
  eq m n = ite (ℕ_discrete (length m) (length n)) (is_submap m n) false
