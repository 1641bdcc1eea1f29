-- ===== src/Db/CompositeView/Consistent.antt =====
-- The three indexes of a composite view (src/db/composite_view.rs) beside its map.
use gresse.Prelude.{◌≡◌, refl, true, false, none, some, Key, Ord, Option-cases, inl, inr, arith}
use gresse.Map
use gresse.Map.{Map}
use gresse.Set
use gresse.Db.Index.{
  insert_sorted, pair_key, holds, holds-discard, holds-add, contains-insert_sorted, ite_pair,
}
use gresse.Db.View.Consistent.{is_value}
use gresse.Db.CompositeView.{CompositeView, new, insert, remove, le_pair}

module _ {K V : Type 0} ⦃key : Key K⦄ ⦃value : Key V⦄ ⦃key_ord : Ord K⦄ ⦃ord : Ord V⦄ where
  pub record IsConsistent (view : CompositeView K V) : Type 0 where
    pub in_s :
        (s u : K) → holds s u view.key_s_index ≡ Map.is_some (Map.get (s, u) view.key_to_value)
    pub in_u :
        (s u : K) → holds u s view.key_u_index ≡ Map.is_some (Map.get (s, u) view.key_to_value)
    pub in_values :
        (s u : K) (v : V)
        → holds s (v, u) view.value_index ≡ is_value (Map.get (s, u) view.key_to_value) v

  pub new-IsConsistent : IsConsistent new
  unfolding new Map.get Set.contains
  new-IsConsistent = record { in_s = λ s u. refl; in_u = λ s u. refl; in_values = λ s u v. refl }

  insert-in_s :
      (s u : K) (v : V) (view : CompositeView K V)
      → IsConsistent view
      → (s' u' : K)
      → holds s' u' (insert s u v view).key_s_index
        ≡ Map.is_some (Map.get (s', u') (insert s u v view).key_to_value)
  unfolding insert Map.contains_key
  insert-in_s s u v view c s' u' = elim (Option-cases (Map.get (s, u) view.key_to_value)) [
    | inr (w, e) ↦ ground (arith, c.in_s s' u')
    | inl e ↦ ground (
      arith,
      c.in_s s' u',
      c.in_s s u',
      holds-add Set.insert Set.contains-insert s' s u' u view.key_s_index,
      Map.get-insert (s', u') (s, u) v view.key_to_value,
      ite_pair s s' u u' (some v) (Map.get (s', u') view.key_to_value),
    )
  ]

  insert-in_u :
      (s u : K) (v : V) (view : CompositeView K V)
      → IsConsistent view
      → (s' u' : K)
      → holds u' s' (insert s u v view).key_u_index
        ≡ Map.is_some (Map.get (s', u') (insert s u v view).key_to_value)
  unfolding insert Map.contains_key
  insert-in_u s u v view c s' u' = elim (Option-cases (Map.get (s, u) view.key_to_value)) [
    | inr (w, e) ↦ ground (arith, c.in_u s' u')
    | inl e ↦ ground (
      arith,
      c.in_u s' u',
      c.in_u s' u,
      holds-add Set.insert Set.contains-insert u' u s' s view.key_u_index,
      Map.get-insert (s', u') (s, u) v view.key_to_value,
      ite_pair s s' u u' (some v) (Map.get (s', u') view.key_to_value),
    )
  ]

  insert-in_values :
      (s u : K) (v : V) (view : CompositeView K V)
      → IsConsistent view
      → (s' u' : K) (v' : V)
      → holds s' (v', u') (insert s u v view).value_index
        ≡ is_value (Map.get (s', u') (insert s u v view).key_to_value) v'
  unfolding insert Map.contains_key
  insert-in_values s u v view c s' u' v' = elim (Option-cases (Map.get (s, u) view.key_to_value)) [
    | inr (w, e) ↦ ground (arith, c.in_values s' u' v')
    | inl e ↦ ground (
      arith,
      c.in_values s' u' v',
      c.in_values s u' v',
      c.in_values s u v',
      holds-add (insert_sorted le_pair) (contains-insert_sorted le_pair) s' s (v', u') (v, u)
          view.value_index,
      Map.get-insert (s', u') (s, u) v view.key_to_value,
      ite_pair s s' u u' (some v) (Map.get (s', u') view.key_to_value),
      ite_pair v v' u u' true (holds s (v', u') view.value_index),
    )
  ]

  remove-in_s :
      (s u : K) (view : CompositeView K V)
      → IsConsistent view
      → (s' u' : K)
      → holds s' u' ((remove s u view).0).key_s_index
        ≡ Map.is_some (Map.get (s', u') ((remove s u view).0).key_to_value)
  unfolding remove
  remove-in_s s u view c s' u' =
      let kept = Map.get-remove (s', u') (s, u) view.key_to_value in
      let halves = ite_pair s s' u u' none (Map.get (s', u') view.key_to_value) in
      elim (Option-cases (Map.get (s, u) view.key_to_value)) [
        | inl e ↦ ground (arith, c.in_s s' u', kept, halves)
        | inr (v, e) ↦ ground (
          arith,
          c.in_s s' u',
          c.in_s s u',
          kept,
          halves,
          holds-discard s' s u' u view.key_s_index,
        )
      ]

  remove-in_u :
      (s u : K) (view : CompositeView K V)
      → IsConsistent view
      → (s' u' : K)
      → holds u' s' ((remove s u view).0).key_u_index
        ≡ Map.is_some (Map.get (s', u') ((remove s u view).0).key_to_value)
  unfolding remove
  remove-in_u s u view c s' u' =
      let kept = Map.get-remove (s', u') (s, u) view.key_to_value in
      let halves = ite_pair s s' u u' none (Map.get (s', u') view.key_to_value) in
      elim (Option-cases (Map.get (s, u) view.key_to_value)) [
        | inl e ↦ ground (arith, c.in_u s' u', kept, halves)
        | inr (v, e) ↦ ground (
          arith,
          c.in_u s' u',
          c.in_u s' u,
          kept,
          halves,
          holds-discard u' u s' s view.key_u_index,
        )
      ]

  remove-in_values :
      (s u : K) (view : CompositeView K V)
      → IsConsistent view
      → (s' u' : K) (v' : V)
      → holds s' (v', u') ((remove s u view).0).value_index
        ≡ is_value (Map.get (s', u') ((remove s u view).0).key_to_value) v'
  unfolding remove
  remove-in_values s u view c s' u' v' =
      let kept = Map.get-remove (s', u') (s, u) view.key_to_value in
      let halves = ite_pair s s' u u' none (Map.get (s', u') view.key_to_value) in
      elim (Option-cases (Map.get (s, u) view.key_to_value)) [
        | inl e ↦ ground (arith, c.in_values s' u' v', kept, halves)
        | inr (v, e) ↦ ground (
          arith,
          c.in_values s' u' v',
          c.in_values s u' v',
          c.in_values s u v',
          kept,
          halves,
          holds-discard s' s (v', u') (v, u) view.value_index,
          ite_pair v v' u u' false (holds s (v', u') view.value_index),
        )
      ]

  -- Every insertion keeps the three indexes in step with the map.
  pub insert-IsConsistent :
      (s u : K) (v : V) (view : CompositeView K V)
      → IsConsistent view
      → IsConsistent (insert s u v view)
  insert-IsConsistent s u v view c = record {
    in_s = insert-in_s s u v view c;
    in_u = insert-in_u s u v view c;
    in_values = insert-in_values s u v view c;
  }

  pub remove-IsConsistent :
      (s u : K) (view : CompositeView K V) → IsConsistent view → IsConsistent (remove s u view).0
  remove-IsConsistent s u view c = record {
    in_s = remove-in_s s u view c;
    in_u = remove-in_u s u view c;
    in_values = remove-in_values s u view c;
  }
