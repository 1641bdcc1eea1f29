-- ===== src/OrSet/Merge.antt =====
-- `merge_delta_group` and `get_delta`: what one replica takes over from another.
use gresse.Prelude.{
  ◌≡◌, refl, true, List, [], ◌∷◌, ◌⊎◌, inl, inr, All, Key, ok, ◌>>=◌, >>=-eq-ok, Bool-cases, arith,
}
use gresse.Dots.{Dot, dot_key}
use gresse.Dots.DotSet
use gresse.Dots.DotSet.{DotSet}
use gresse.Dots.DotSet.Reads
use gresse.Dots.DotSet.Increment
use gresse.Dots.DotSet.Increment.{Appends}
use gresse.OrSet.{OrSet, Delta, merge_delta, merge_deltas, record_delta}
use gresse.OrSet.Invariant.{IsWf, record_delta-IsWf}

module _ {T : Type 0} ⦃key : Key T⦄ where
  abbrev with_vector : OrSet T → DotSet → OrSet T
  with_vector s vv = record s { version_vector = vv }

  -- A delta is known, and skipped, or its dot is appended to the vector and the change made.
  merge_delta-cases :
      (d : Delta T) (s : OrSet T) {s' : OrSet T}
      → Reads.IsWf s.version_vector
      → merge_delta d s ≡ ok s'
      → ((DotSet.contains d.dot s.version_vector ≡ true) × (s' ≡ s))
        ⊎ ((vv : DotSet) × Appends d.dot s.version_vector vv
            × (s' ≡ record_delta d (with_vector s vv)))
  unfolding merge_delta
  merge_delta-cases d s {s'} w h = elim (Bool-cases (DotSet.contains d.dot s.version_vector)) [
    | inl known ↦ inl (known, ground arith)
    | inr fresh ↦
        let insertion = DotSet.insert d.dot s.version_vector in
        let made : (insertion >>= λ vv. ok (record_delta d (with_vector s vv))) ≡ ok s' =
          ground arith in
        let (vv, e, r) = >>=-eq-ok insertion (λ vv. ok (record_delta d (with_vector s vv))) made in
        inr (vv, Increment.insert-Appends d.dot s.version_vector w fresh e, ground arith)
  ]

  vector-record_delta :
      (d : Delta T) (s : OrSet T) (vv : DotSet)
      → (record_delta d (with_vector s vv)).version_vector ≡ vv
  unfolding record_delta
  vector-record_delta d s vv = refl

  merge_delta-IsWf :
      (d : Delta T) (s : OrSet T) {s' : OrSet T} → IsWf s → merge_delta d s ≡ ok s' → IsWf s'
  merge_delta-IsWf d s w h = elim (merge_delta-cases d s w.logged.vector h) [
    | inl (known, e) ↦ rw e w
    | inr (vv, a, e) ↦ rw e (record_delta-IsWf d s a w)
  ]

  -- Merging a group of deltas into a well-formed set leaves it well-formed, if no assertion fails.
  pub merge_deltas-IsWf :
      (ds : List (Delta T)) (s : OrSet T) {s' : OrSet T}
      → IsWf s
      → merge_deltas ds s ≡ ok s'
      → IsWf s'
  unfolding merge_deltas
  merge_deltas-IsWf [] s {s'} w h = let e : s' ≡ s = ground arith in rw e w
  merge_deltas-IsWf (d ∷ ds) s w h =
      let (t, e, r) = >>=-eq-ok (merge_delta d s) (merge_deltas ds) h in
      merge_deltas-IsWf ds t (merge_delta-IsWf d s w e) r

  abbrev Knows : OrSet T → Dot → Type 0
  Knows s d = DotSet.contains d s.version_vector ≡ true

  merge_delta-Knows :
      (d : Delta T) (s : OrSet T) {s' : OrSet T}
      → IsWf s
      → merge_delta d s ≡ ok s'
      → Knows s' d.dot × ((e : Dot) → Knows s e → Knows s' e)
  merge_delta-Knows d s {s'} w h = elim (merge_delta-cases d s w.logged.vector h) [
    | inl (known, e) ↦ rw e (known, λ _ k. k)
    | inr (vv, a, e) ↦
        rw (e, vector-record_delta d s vv)
          (Increment.contains-Appends_self d.dot a, λ x k. Increment.contains-Appends d.dot x a k)
  ]

  merge_deltas-Knows :
      (ds : List (Delta T)) (s : OrSet T) {s' : OrSet T}
      → IsWf s
      → merge_deltas ds s ≡ ok s'
      → All (λ d. Knows s' d.dot) ds × ((e : Dot) → Knows s e → Knows s' e)
  unfolding merge_deltas
  merge_deltas-Knows [] s {s'} w h = (tt, λ e k. let same : s' ≡ s = ground arith in rw same k)
  merge_deltas-Knows (d ∷ ds) s w h =
      let (t, e, r) = >>=-eq-ok (merge_delta d s) (merge_deltas ds) h in
      let (first, step) = merge_delta-Knows d s w e in
      let (rest, later) = merge_deltas-Knows ds t (merge_delta-IsWf d s w e) r in
      ((later d.dot first, rest), λ x k. later x (step x k))

  -- Deltas that are all known change nothing.
  merge_known :
      (ds : List (Delta T)) (s : OrSet T) → All (λ d. Knows s d.dot) ds → merge_deltas ds s ≡ ok s
  unfolding merge_deltas merge_delta
  merge_known [] s h = refl
  merge_known (d ∷ ds) s h = ground (arith, h.0, merge_known ds s h.1)

  -- A group of deltas that was merged into a well-formed set changes nothing when it is merged
  -- again.
  pub merge_deltas_again :
      (ds : List (Delta T)) (s : OrSet T) {s' : OrSet T}
      → IsWf s
      → merge_deltas ds s ≡ ok s'
      → merge_deltas ds s' ≡ ok s'
  merge_deltas_again ds s {s'} w h = merge_known ds s' (merge_deltas-Knows ds s w h).0
