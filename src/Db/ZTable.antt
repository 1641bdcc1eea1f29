-- ===== src/Db/ZTable.antt =====
-- `ZTable` of src/db/ztable.rs: weighted entries in shards by the hash of the key.
pub mod Weights
pub mod Shards
use gresse.Prelude.{
  ℕ, zero, suc, ℤ, ◌+◌, ◌%◌, Bool, true, false, ◌&&◌, Option, none, some, List, [], ◌∷◌, ◌++◌, ite,
  if◌then◌else◌, Key, ltb, length, ltb_ℤ, succ_i64, pred_i64, ℤ_discrete,
}
use gresse.Map
use gresse.Map.{Map}

-- An `isize` of 64 bits.
abbrev pub Weight : Type 0
Weight = ℤ

abbrev pub Shard : Type 0 → Type 0 → Type 0
Shard K V = Map K (Weight × V)

pub record ZTable (K V : Type 0) : Type 0 where
  pub shards : List (Shard K V)

abbrev repeat_empty : {K V : Type 0} → ℕ → List (Shard K V)
repeat_empty zero = []
repeat_empty (suc n) = [] ∷ repeat_empty n

unfoldable pub new_with_shards : {K V : Type 0} → ℕ → ZTable K V
new_with_shards zero = record { shards = repeat_empty 1 }
new_with_shards (suc n) = record { shards = repeat_empty (suc n) }

unfoldable pub new : {K V : Type 0} → ZTable K V
new = new_with_shards 1

unfoldable pub shard_count : {K V : Type 0} → ZTable K V → ℕ
shard_count t = length t.shards

-- The shard at an index, and the shards with one changed.
unfoldable pub nth : {A : Type 0} → ℕ → A → List A → A
nth i d [] = d
nth zero d (x ∷ xs) = x
nth (suc i) d (x ∷ xs) = nth i d xs

unfoldable pub change_nth : {A : Type 0} → ℕ → (A → A) → List A → List A
change_nth i f [] = []
change_nth zero f (x ∷ xs) = f x ∷ xs
change_nth (suc i) f (x ∷ xs) = x ∷ change_nth i f xs

abbrev sum_lengths : {K V : Type 0} → List (Shard K V) → ℕ
sum_lengths [] = 0
sum_lengths (shard ∷ shards) = length shard + sum_lengths shards

unfoldable pub len : {K V : Type 0} → ZTable K V → ℕ
len t = sum_lengths t.shards

-- `hash` is the hasher of the standard library, on 64 bits; `default` is `V::default()`.
module _ {K V : Type 0} ⦃key : Key K⦄ (hash : K → ℕ) (default : V) where
  unfoldable pub shard_index : K → ZTable K V → ℕ
  shard_index k t = hash k % length t.shards

  unfoldable pub shard : K → ZTable K V → Shard K V
  shard k t = nth (shard_index k t) [] t.shards

  -- `shard_mut`, with what is done to the shard.
  unfoldable pub shard_mut : K → (Shard K V → Shard K V) → ZTable K V → ZTable K V
  shard_mut k f t = record { shards = change_nth (shard_index k t) f t.shards }

  abbrev pub weight_of : Option (Weight × V) → Weight
  weight_of none = ℤ.pos 0
  weight_of (some (w, _)) = w

  abbrev pub inserted : K → V → Shard K V → Shard K V
  inserted k v inner = elim (Map.get k inner) [
    | some (w, _) ↦ Map.insert k (succ_i64 w, v) inner
    | none ↦ Map.insert k (ℤ.pos 1, v) inner
  ]

  -- The table and the new weight.
  unfoldable pub insert : K → V → ZTable K V → ZTable K V × Weight
  insert k v t = (
    shard_mut k (inserted k v) t,
    elim (Map.get k (shard k t)) [ some (w, _) ↦ succ_i64 w | none ↦ ℤ.pos 1 ],
  )

  abbrev lowered : K → Shard K V → Shard K V
  lowered k inner = elim (Map.get k inner) [
    | some (w, v) ↦ Map.insert k (pred_i64 w, v) inner
    | none ↦ Map.insert k (ℤ.negsuc 0, default) inner
  ]

  abbrev pub lowered_weight : Option (Weight × V) → Weight
  lowered_weight none = ℤ.negsuc 0
  lowered_weight (some (w, _)) = pred_i64 w

  -- An entry whose weight has become 0 is removed.
  abbrev pub removed : K → Shard K V → Shard K V
  removed k inner =
      ite (ℤ_discrete (lowered_weight (Map.get k inner)) (ℤ.pos 0)) (Map.remove k (lowered k inner))
        (lowered k inner)

  unfoldable pub remove : K → ZTable K V → ZTable K V × Weight
  remove k t = (shard_mut k (removed k) t, lowered_weight (Map.get k (shard k t)))

  unfoldable pub get_weight : K → ZTable K V → Weight
  get_weight k t = weight_of (Map.get k (shard k t))

  abbrev if_positive : Option (Weight × V) → Option V
  if_positive none = none
  if_positive (some (w, v)) = if ltb_ℤ w (ℤ.pos 1) then none else some v

  unfoldable pub get : K → ZTable K V → Option V
  get k t = if_positive (Map.get k (shard k t))
