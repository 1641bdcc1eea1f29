-- ===== src/Dots/DotMap.antt =====
-- `DotMap<T>` of src/dots.rs: the log of deltas, each under its dot, in the order of its replica.
pub mod Contents
pub mod Greater
use Prim.Native.Nat.{compare, Ordering}
use gresse.Prelude.{
  ℕ, ◌+◌, Bool, true, false, not, Option, none, some, List, [], ◌∷◌, ◌++◌, if◌then◌else◌, length,
  drop, filter, pos_part, neg_part, binary_search_by, after, nat_key,
}
use gresse.Map
use gresse.Map.{Map}
use gresse.Dots.{Pid, Counter, Dot}
use gresse.Dots.DotSet
use gresse.Dots.DotSet.{DotSet}

-- `a.cmp(&b)` of two counters.
abbrev pub cmp_counter : Counter → Counter → Ordering
cmp_counter a b = compare (pos_part a + neg_part b) (pos_part b + neg_part a)

-- The comparison of the binary search.
abbrev pub dot_order {ℓ} : {T : Type ℓ} → Counter → Dot × T → Ordering
dot_order c e = cmp_counter e.0.counter c

pub record DotMap (T : Type 0) : Type 0 where
  pub map : Map Pid (List (Dot × T))

module _ {T : Type 0} where
  unfoldable pub new : DotMap T
  new = record { map = Map.empty }

  unfoldable pub is_empty : DotMap T → Bool
  is_empty m = elim m.map [ [] ↦ true | _ ∷ _ ↦ false ]

  unfoldable pub sum_lengths : Map Pid (List (Dot × T)) → ℕ
  sum_lengths [] = 0
  sum_lengths ((_, vec) ∷ rest) = length vec + sum_lengths rest

  unfoldable pub len : DotMap T → ℕ
  len m = sum_lengths m.map

  unfoldable pub insert : Dot → T → DotMap T → DotMap T
  insert dot value m = record {
    map = Map.upsert dot.pid (λ vec. vec ++ (dot, value) ∷ []) ((dot, value) ∷ []) m.map;
  }

  unfoldable pub get_greater_iter : Dot → DotMap T → List (Dot × T)
  get_greater_iter dot m = elim (Map.get dot.pid m.map) [
    | none ↦ []
    | some all ↦ drop (after (binary_search_by all (dot_order dot.counter))) all
  ]

  -- `existing_keys_iter`: the entries beyond each counter of the vector.
  unfoldable pub existing_keys : Map Pid Counter → DotMap T → List (Dot × T)
  existing_keys [] m = []
  existing_keys ((pid, c) ∷ rest) m =
      get_greater_iter (record { pid = pid; counter = c }) m ++ existing_keys rest m

  -- `missing_keys_iter`: all entries of the replicas that the vector does not know.
  unfoldable pub missing_keys : Map Pid (List (Dot × T)) → DotSet → List (Dot × T)
  missing_keys [] dot_set = []
  missing_keys ((pid, vec) ∷ rest) dot_set =
      let others = missing_keys rest dot_set in
      if Map.contains_key pid dot_set.set then others else vec ++ others

  unfoldable pub get_all_greater_iter : DotSet → DotMap T → List (Dot × T)
  get_all_greater_iter dot_set m = existing_keys dot_set.set m ++ missing_keys m.map dot_set

  abbrev is_nil : List (Dot × T) → Bool
  is_nil [] = true
  is_nil (_ ∷ _) = false

  -- The entries that pass the test, and then the replicas that have some left.
  unfoldable pub retain : (Dot → T → Bool) → DotMap T → DotMap T
  retain predicate m = record {
    map =
        Map.filter (λ _ values. not (is_nil values))
          (Map.map_values (filter (λ e. predicate e.0 e.1)) m.map);
  }
