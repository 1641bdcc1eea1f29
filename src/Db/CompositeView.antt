-- ===== src/Db/CompositeView.antt =====
-- `CompositeView` of src/db/composite_view.rs: values under pairs of keys, with an index for each
-- half and the values of each first half in order.
pub mod Consistent
pub mod Lookup
use gresse.Prelude.{
  ℕ, suc, zero, ◌+◌, Bool, true, false, Option, none, some, List, [], ◌∷◌, ite, if◌then◌else◌, Key,
  Ord, Outcome, ok, ◌>>=◌, expect, take, length,
}
use gresse.Map
use gresse.Map.{Map}
use gresse.Set
use gresse.Db.Index.{discard, add, insert_sorted, pair_key}

pub record CompositeView (K V : Type 0) : Type 0 where
  pub key_to_value : Map (K × K) V
  pub key_s_index : Map K (List K)
  pub key_u_index : Map K (List K)
  pub value_index : Map K (List (V × K))

module _ {K V : Type 0} ⦃key : Key K⦄ ⦃value : Key V⦄ ⦃key_ord : Ord K⦄ ⦃ord : Ord V⦄ where
  -- The derived order of pairs.
  abbrev pub le_pair : V × K → V × K → Bool
  le_pair (v, u) (w, t) =
      if ord.le v w then (if ord.le w v then key_ord.le u t else true) else false

  unfoldable pub new : CompositeView K V
  new = record {
    key_to_value = Map.empty;
    key_s_index = Map.empty;
    key_u_index = Map.empty;
    value_index = Map.empty;
  }

  unfoldable pub len : CompositeView K V → ℕ
  len view = length view.key_to_value

  abbrev inserted : K → K → V → CompositeView K V → CompositeView K V
  inserted s u v view = record {
    key_to_value = Map.insert (s, u) v view.key_to_value;
    key_s_index = add Set.insert s u view.key_s_index;
    key_u_index = add Set.insert u s view.key_u_index;
    value_index = add (insert_sorted le_pair) s (v, u) view.value_index;
  }

  -- A pair that is there keeps its value.
  unfoldable pub insert : K → K → V → CompositeView K V → CompositeView K V
  insert s u v view =
      if Map.contains_key (s, u) view.key_to_value then view else inserted s u v view

  unfoldable pub insert_values : List ((K × K) × V) → CompositeView K V → CompositeView K V
  insert_values [] view = view
  insert_values (((s, u), v) ∷ values) view = insert_values values (insert s u v view)

  abbrev removed : K → K → V → CompositeView K V → CompositeView K V
  removed s u v view = record {
    key_to_value = Map.remove (s, u) view.key_to_value;
    key_s_index = discard s u view.key_s_index;
    key_u_index = discard u s view.key_u_index;
    value_index = discard s (v, u) view.value_index;
  }

  unfoldable pub remove : K → K → CompositeView K V → CompositeView K V × Bool
  remove s u view = elim (Map.get (s, u) view.key_to_value) [
    | none ↦ (record view { key_to_value = Map.remove (s, u) view.key_to_value }, false)
    | some v ↦ (removed s u v view, true)
  ]

  abbrev counted : CompositeView K V × Bool → ℕ → CompositeView K V × ℕ
  counted (view, true) count = (view, count + 1)
  counted (view, false) count = (view, count)

  -- The loops of `remove_by_key_s` and `remove_by_key_u`.
  unfoldable pub remove_us : K → List K → CompositeView K V × ℕ → CompositeView K V × ℕ
  remove_us s [] acc = acc
  remove_us s (u ∷ us) acc = remove_us s us (counted (remove s u (acc.0)) (acc.1))

  unfoldable pub remove_ss : K → List K → CompositeView K V × ℕ → CompositeView K V × ℕ
  remove_ss u [] acc = acc
  remove_ss u (s ∷ ss) acc = remove_ss u ss (counted (remove s u (acc.0)) (acc.1))

  unfoldable pub remove_by_key_s : K → CompositeView K V → CompositeView K V × ℕ
  remove_by_key_s s view = elim (Map.get s view.key_s_index) [
    | none ↦ (view, 0)
    | some us ↦ remove_us s us (view, 0)
  ]

  unfoldable pub remove_by_key_u : K → CompositeView K V → CompositeView K V × ℕ
  remove_by_key_u u view = elim (Map.get u view.key_u_index) [
    | none ↦ (view, 0)
    | some ss ↦ remove_ss u ss (view, 0)
  ]

  unfoldable pub get_value : K → K → CompositeView K V → Option V
  get_value s u view = Map.get (s, u) view.key_to_value

  unfoldable pub get_keys_b : K → CompositeView K V → Option (List K)
  get_keys_b s view = Map.get s view.key_s_index

  unfoldable pub get_keys_a : K → CompositeView K V → Option (List K)
  get_keys_a u view = Map.get u view.key_u_index

  abbrev tagged : K → List (V × K) → List ((K × K) × V)
  tagged s [] = []
  tagged s ((v, u) ∷ vs) = ((s, u), v) ∷ tagged s vs

  unfoldable pub get_by_key_s : K → CompositeView K V → Option (List ((K × K) × V))
  get_by_key_s s view = Map.map_option (tagged s) (Map.get s view.value_index)

  -- `expect("missing value in composite view")` on every first half.
  unfoldable pub lookup_ss : K → List K → Map (K × K) V → Outcome (List ((K × K) × V))
  lookup_ss u [] m = ok []
  lookup_ss u (s ∷ ss) m = do
    v ← expect (Map.get (s, u) m)
    rest ← lookup_ss u ss m
    ok (((s, u), v) ∷ rest)

  unfoldable pub get_by_key_u : K → CompositeView K V → Outcome (Option (List ((K × K) × V)))
  get_by_key_u u view = elim (Map.get u view.key_u_index) [
    | none ↦ ok none
    | some ss ↦ do found ← lookup_ss u ss view.key_to_value; ok (some found)
  ]

  abbrev push_some : K → Option V → List (K × V) → List (K × V)
  push_some k none rest = rest
  push_some k (some v) rest = (k, v) ∷ rest

  unfoldable pub present_us : K → List K → Map (K × K) V → List (K × V)
  present_us s [] m = []
  present_us s (u ∷ us) m = push_some u (Map.get (s, u) m) (present_us s us m)

  unfoldable pub present_ss : K → List K → Map (K × K) V → List (K × V)
  present_ss u [] m = []
  present_ss u (s ∷ ss) m = push_some s (Map.get (s, u) m) (present_ss u ss m)

  unfoldable pub query_a : K → CompositeView K V → Option (List (K × V))
  query_a s view =
      Map.map_option (λ us. present_us s us view.key_to_value) (Map.get s view.key_s_index)

  unfoldable pub query_b : K → CompositeView K V → Option (List (K × V))
  query_b u view =
      Map.map_option (λ ss. present_ss u ss view.key_to_value) (Map.get u view.key_u_index)

  unfoldable pub min_k : K → ℕ → CompositeView K V → Option (List (V × K))
  min_k s k view = Map.map_option (take k) (Map.get s view.value_index)
