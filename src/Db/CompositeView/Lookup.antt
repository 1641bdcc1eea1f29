-- ===== src/Db/CompositeView/Lookup.antt =====
-- Lookups by the second key after any calls on a composite view.
use gresse.Prelude.{
  ◌≡◌, refl, Bool, true, false, Option, none, some, List, [], ◌∷◌, if_pos, Key, Ord, Option-cases,
  inl, inr, ok, arith, ℕ,
}
use gresse.Map
use gresse.Map.{Map}
use gresse.Set
use gresse.Db.Index.{pair_key}
use gresse.Db.CompositeView
use gresse.Db.CompositeView.{
  CompositeView, lookup_ss, get_by_key_u, insert_values, remove_us, remove_ss, remove_by_key_s,
  remove_by_key_u,
}
use gresse.Db.CompositeView.Consistent.{
  IsConsistent, new-IsConsistent, insert-IsConsistent, remove-IsConsistent,
}

-- The calls that change a composite view.
pub data Op (K V : Type 0) : Type 0 where
  put : K → K → V → Op K V
  put_all : List ((K × K) × V) → Op K V
  take : K → K → Op K V
  take_s : K → Op K V
  take_u : K → Op K V

some_of : {V : Type 0} (o : Option V) → Map.is_some o ≡ true → (v : V) × (o ≡ some v)
some_of none h = cc
some_of (some v) h = (v, refl)

module _ {K V : Type 0} ⦃key : Key K⦄ ⦃value : Key V⦄ ⦃key_ord : Ord K⦄ ⦃ord : Ord V⦄ where
  unfoldable pub apply : Op K V → CompositeView K V → CompositeView K V
  apply (put s u v) view = CompositeView.insert s u v view
  apply (put_all values) view = insert_values values view
  apply (take s u) view = (CompositeView.remove s u view).0
  apply (take_s s) view = (remove_by_key_s s view).0
  apply (take_u u) view = (remove_by_key_u u view).0

  unfoldable pub apply_all : List (Op K V) → CompositeView K V → CompositeView K V
  apply_all [] view = view
  apply_all (op ∷ ops) view = apply_all ops (apply op view)

  insert_values-IsConsistent :
      (values : List ((K × K) × V)) (view : CompositeView K V)
      → IsConsistent view
      → IsConsistent (insert_values values view)
  unfolding insert_values
  insert_values-IsConsistent [] view c = c
  insert_values-IsConsistent (((s, u), v) ∷ values) view c =
      insert_values-IsConsistent values (CompositeView.insert s u v view)
        (insert-IsConsistent s u v view c)

  state-counted :
      (r : CompositeView K V × Bool) (count : ℕ) → (CompositeView.counted r count).0 ≡ r.0
  state-counted (view, true) count = refl
  state-counted (view, false) count = refl

  remove_us-IsConsistent :
      (s : K) (us : List K) (acc : CompositeView K V × ℕ)
      → IsConsistent (acc.0)
      → IsConsistent (remove_us s us acc).0
  unfolding remove_us
  remove_us-IsConsistent s [] acc c = c
  remove_us-IsConsistent s (u ∷ us) acc c =
      remove_us-IsConsistent s us (CompositeView.counted (CompositeView.remove s u (acc.0)) (acc.1))
        (rw (state-counted (CompositeView.remove s u (acc.0)) (acc.1))
          (remove-IsConsistent s u (acc.0) c))

  remove_ss-IsConsistent :
      (u : K) (ss : List K) (acc : CompositeView K V × ℕ)
      → IsConsistent (acc.0)
      → IsConsistent (remove_ss u ss acc).0
  unfolding remove_ss
  remove_ss-IsConsistent u [] acc c = c
  remove_ss-IsConsistent u (s ∷ ss) acc c =
      remove_ss-IsConsistent u ss (CompositeView.counted (CompositeView.remove s u (acc.0)) (acc.1))
        (rw (state-counted (CompositeView.remove s u (acc.0)) (acc.1))
          (remove-IsConsistent s u (acc.0) c))

  remove_by_key_s-IsConsistent :
      (s : K) (view : CompositeView K V)
      → IsConsistent view
      → IsConsistent (remove_by_key_s s view).0
  unfolding remove_by_key_s
  remove_by_key_s-IsConsistent s view c =
      elim (Map.get s view.key_s_index)
        as (λ o.
          IsConsistent
            (elim o as (λ _. CompositeView K V × ℕ) [
              | none ↦ (view, 0)
              | some us ↦ remove_us s us (view, 0)
            ]).0) [ none ↦ c | some us ↦ remove_us-IsConsistent s us (view, 0) c ]

  remove_by_key_u-IsConsistent :
      (u : K) (view : CompositeView K V)
      → IsConsistent view
      → IsConsistent (remove_by_key_u u view).0
  unfolding remove_by_key_u
  remove_by_key_u-IsConsistent u view c =
      elim (Map.get u view.key_u_index)
        as (λ o.
          IsConsistent
            (elim o as (λ _. CompositeView K V × ℕ) [
              | none ↦ (view, 0)
              | some ss ↦ remove_ss u ss (view, 0)
            ]).0) [ none ↦ c | some ss ↦ remove_ss-IsConsistent u ss (view, 0) c ]

  apply-IsConsistent :
      (op : Op K V) (view : CompositeView K V) → IsConsistent view → IsConsistent (apply op view)
  unfolding apply
  apply-IsConsistent (put s u v) view c = insert-IsConsistent s u v view c
  apply-IsConsistent (put_all values) view c = insert_values-IsConsistent values view c
  apply-IsConsistent (take s u) view c = remove-IsConsistent s u view c
  apply-IsConsistent (take_s s) view c = remove_by_key_s-IsConsistent s view c
  apply-IsConsistent (take_u u) view c = remove_by_key_u-IsConsistent u view c

  apply_all-IsConsistent :
      (ops : List (Op K V)) (view : CompositeView K V)
      → IsConsistent view
      → IsConsistent (apply_all ops view)
  unfolding apply_all
  apply_all-IsConsistent [] view c = c
  apply_all-IsConsistent (op ∷ ops) view c =
      apply_all-IsConsistent ops (apply op view) (apply-IsConsistent op view c)

  lookup_ss-ok :
      (u : K) (ss : List K) (m : Map (K × K) V)
      → ((s : K) → Set.contains s ss ≡ true → Map.is_some (Map.get (s, u) m) ≡ true)
      → (found : List ((K × K) × V)) × (lookup_ss u ss m ≡ ok found)
  unfolding lookup_ss Set.contains
  lookup_ss-ok u [] m h = ([], refl)
  lookup_ss-ok u (s ∷ ss) m h =
      let (v, e) =
        some_of (Map.get (s, u) m) (h s (if_pos (key.dec s s) refl true (Set.contains s ss))) in
      let rest : (s' : K) → Set.contains s' ss ≡ true → Map.is_some (Map.get (s', u) m) ≡ true =
        λ s' k. h s' (ground (arith, k)) in
      let (found, done) = lookup_ss-ok u ss m rest in (((s, u), v) ∷ found, rw (e, done) refl)

  -- After any calls on an empty composite view, the lookup by a second key does not panic.
  pub get_by_key_u-apply_all :
      (ops : List (Op K V)) (u : K)
      → (found : Option (List ((K × K) × V))) × (get_by_key_u u (apply_all ops CompositeView.new)
          ≡ ok found)
  unfolding get_by_key_u
  get_by_key_u-apply_all ops u =
      from (apply_all ops CompositeView.new)
        (apply_all-IsConsistent ops CompositeView.new new-IsConsistent)
    where
      from :
          (view : CompositeView K V)
          → IsConsistent view
          → (found : Option (List ((K × K) × V))) × (get_by_key_u u view ≡ ok found)
      from view c = elim (Option-cases (Map.get u view.key_u_index)) [
        | inl e ↦ (none, rw (get_by_key_u, e) refl)
        | inr (ss, e) ↦
            let present : (s : K)
                → Set.contains s ss ≡ true
                → Map.is_some (Map.get (s, u) view.key_to_value) ≡ true =
              λ s k. ground (arith, c.in_u s u) in
            let (found, done) = lookup_ss-ok u ss view.key_to_value present in
            (some found, rw (get_by_key_u, e, done) refl)
      ]
