-- ===== src/Db/View/Consistent.antt =====
-- The two maps of a view (src/db/view.rs) and the calls that change them.
use gresse.Prelude.{
  ◌≡◌, refl, Bool, true, false, Option, none, some, List, [], ◌∷◌, ite, if◌then◌else◌, Key, Ord,
  Option-cases, inl, inr, arith,
}
use gresse.Map
use gresse.Map.{Map}
use gresse.Set
use gresse.Db.Index.{discard, holds, holds-discard, get-insert_entry}
use gresse.Db.View.{
  View, new, insert, insert_values, remove_by_key, remove_by_value, remove_keys, get_value, add_key,
}

abbrev pub is_value : {V : Type 0} ⦃value : Key V⦄ → Option V → V → Bool
is_value none v = false
is_value ⦃value⦄ (some w) v = ite (value.dec w v) true false

-- The calls that change a view.
pub data Op (K V : Type 0) : Type 0 where
  put : K → V → Op K V
  put_all : List (K × V) → Op K V
  take_key : K → Op K V
  take_value : V → Op K V

module _ {K V : Type 0} ⦃key : Key K⦄ ⦃value : Key V⦄ ⦃ord : Ord V⦄ where
  -- A key stands under a value exactly if it is mapped to it.
  pub record IsConsistent (view : View K V) : Type 0 where
    pub agree :
        (k : K) (v : V) → holds v k view.value_to_keys ≡ is_value (Map.get k view.key_to_value) v

  holds-add_key :
      (w v : V) (j k : K) (index : Map V (List K))
      → holds w j (add_key v k index)
        ≡ ite (value.dec v w) (ite (key.dec k j) true (holds v j index)) (holds w j index)
  holds-add_key w v j k index = elim (Option-cases (Map.get v index)) [
    | inl e ↦
        ground
          (arith, get-insert_entry ord.le w v (Set.insert k []) index, Set.contains-insert j k [])
    | inr (ks, e) ↦
        ground (arith, Map.get-insert w v (Set.insert k ks) index, Set.contains-insert j k ks)
  ]

  new-IsConsistent : IsConsistent new
  unfolding new Map.get Set.contains
  new-IsConsistent = record { agree = λ k v. refl }

  insert-IsConsistent :
      (k : K) (v : V) (view : View K V) → IsConsistent view → IsConsistent (insert k v view)
  unfolding insert
  insert-IsConsistent k v view c = record { agree = agree }
    where
      agree :
          (j : K) (w : V)
          → holds w j (insert k v view).value_to_keys
            ≡ is_value (Map.get j (insert k v view).key_to_value) w
      agree j w = elim (Option-cases (Map.get k view.key_to_value)) [
        | inl e ↦ ground (
          arith,
          c.agree j w,
          c.agree j v,
          holds-add_key w v j k view.value_to_keys,
          Map.get-insert j k v view.key_to_value,
        )
        | inr (old, e) ↦ ground (
          arith,
          c.agree j w,
          c.agree j v,
          c.agree j old,
          holds-add_key w v j k (discard old k view.value_to_keys),
          Map.get-insert j k v view.key_to_value,
          holds-discard w old j k view.value_to_keys,
          holds-discard v old j k view.value_to_keys,
        )
      ]

  remove_by_key-IsConsistent :
      (k : K) (view : View K V) → IsConsistent view → IsConsistent (remove_by_key k view).0
  unfolding remove_by_key
  remove_by_key-IsConsistent k view c = record { agree = agree }
    where
      agree :
          (j : K) (w : V)
          → holds w j ((remove_by_key k view).0).value_to_keys
            ≡ is_value (Map.get j ((remove_by_key k view).0).key_to_value) w
      agree j w = elim (Option-cases (Map.get k view.key_to_value)) [
        | inl e ↦ ground (arith, c.agree j w, Map.get-remove j k view.key_to_value)
        | inr (old, e) ↦ ground (
          arith,
          c.agree j w,
          c.agree j old,
          Map.get-remove j k view.key_to_value,
          holds-discard w old j k view.value_to_keys,
        )
      ]

  get-remove_keys :
      (j : K) (ks : List K) (m : Map K V)
      → Map.get j (remove_keys ks m) ≡ (if Set.contains j ks then none else Map.get j m)
  unfolding remove_keys Set.contains
  get-remove_keys j [] m = refl
  get-remove_keys j (k ∷ ks) m =
      ground (arith, get-remove_keys j ks (Map.remove k m), Map.get-remove j k m)

  remove_by_value-IsConsistent :
      (v : V) (view : View K V) → IsConsistent view → IsConsistent (remove_by_value v view)
  unfolding remove_by_value
  remove_by_value-IsConsistent v view c = record { agree = agree }
    where
      agree :
          (j : K) (w : V)
          → holds w j (remove_by_value v view).value_to_keys
            ≡ is_value (Map.get j (remove_by_value v view).key_to_value) w
      agree j w = elim (Option-cases (Map.get v view.value_to_keys)) [
        | inl e ↦ ground (arith, c.agree j w)
        | inr (ks, e) ↦
            unfold Set.contains in
            ground (
              arith,
              c.agree j w,
              c.agree j v,
              get-remove_keys j ks view.key_to_value,
              Map.get-remove w v view.value_to_keys,
            )
      ]

  unfoldable pub apply : Op K V → View K V → View K V
  apply (put k v) view = insert k v view
  apply (put_all values) view = insert_values values view
  apply (take_key k) view = (remove_by_key k view).0
  apply (take_value v) view = remove_by_value v view

  unfoldable pub apply_all : List (Op K V) → View K V → View K V
  apply_all [] view = view
  apply_all (op ∷ ops) view = apply_all ops (apply op view)

  insert_values-IsConsistent :
      (values : List (K × V)) (view : View K V)
      → IsConsistent view
      → IsConsistent (insert_values values view)
  unfolding insert_values
  insert_values-IsConsistent [] view c = c
  insert_values-IsConsistent ((k, v) ∷ values) view c =
      insert_values-IsConsistent values (insert k v view) (insert-IsConsistent k v view c)

  apply-IsConsistent :
      (op : Op K V) (view : View K V) → IsConsistent view → IsConsistent (apply op view)
  unfolding apply
  apply-IsConsistent (put k v) view c = insert-IsConsistent k v view c
  apply-IsConsistent (put_all values) view c = insert_values-IsConsistent values view c
  apply-IsConsistent (take_key k) view c = remove_by_key-IsConsistent k view c
  apply-IsConsistent (take_value v) view c = remove_by_value-IsConsistent v view c

  apply_all-IsConsistent :
      (ops : List (Op K V)) (view : View K V)
      → IsConsistent view
      → IsConsistent (apply_all ops view)
  unfolding apply_all
  apply_all-IsConsistent [] view c = c
  apply_all-IsConsistent (op ∷ ops) view c =
      apply_all-IsConsistent ops (apply op view) (apply-IsConsistent op view c)

  -- After any calls on an empty view, a key stands under a value exactly if it is mapped to it.
  pub view_agrees :
      (ops : List (Op K V)) (k : K) (v : V)
      → holds v k (apply_all ops new).value_to_keys ≡ is_value (get_value k (apply_all ops new)) v
  unfolding get_value
  view_agrees ops k v = (apply_all-IsConsistent ops new new-IsConsistent).agree k v
