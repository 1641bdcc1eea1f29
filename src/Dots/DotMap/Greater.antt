-- ===== src/Dots/DotMap/Greater.antt =====
-- `get_greater_iter` and `get_all_greater_iter`: what a version vector does not cover.
use mathlib.Core.List.{append-nil}
use gresse.Prelude.{
  ℕ, zero, suc, ◌≡◌, ◌≢◌, refl, Bool, true, false, not, Option, none, some, List, [], ◌∷◌, ◌++◌,
  ite, if_pos, if_neg, if◌then◌else◌, All, filter, filter-append, filter_congr, ltb_ℤ, ◌<ℤ◌,
  ℕ_discrete, nat_key, order_at, is_gt, IsMonotone, drop-binary_search_by, arith, drop, after,
  binary_search_by, ◌∙◌, sym, All-filter,
}
use gresse.Map
use gresse.Map.{Map}
use gresse.Dots.{Pid, Counter, Dot}
use gresse.Dots.DotSet
use gresse.Dots.DotSet.{DotSet}
use gresse.Dots.DotSet.Reads
use gresse.Dots.DotMap.{
  DotMap, dot_order, get_greater_iter, existing_keys, missing_keys, get_all_greater_iter,
}
use gresse.Dots.DotMap.Contents.{entries, or_nil, HasPid, Above, IsSorted, IsWf}

module _ {T : Type 0} where
  later_gt :
      (c : Counter) (b : Counter) (es : List (Dot × T)) (j : ℕ)
      → c <ℤ b
      → All (Above b) es
      → is_gt (order_at (dot_order c) es j) ≡ true
  unfolding order_at
  later_gt c b [] j h a = refl
  later_gt c b (e ∷ es) zero h a = ground arith
  later_gt c b (e ∷ es) (suc j) h a = later_gt c b es j h a.1

  dot_order-IsMonotone :
      (c : Counter) (es : List (Dot × T)) → IsSorted es → IsMonotone (dot_order c) es
  unfolding order_at
  dot_order-IsMonotone c [] s i j h t = refl
  dot_order-IsMonotone c (e ∷ es) s zero zero h t = t
  dot_order-IsMonotone c (e ∷ es) s zero (suc j) h t =
      later_gt c e.0.counter es j (ground arith) s.0
  dot_order-IsMonotone c (e ∷ es) s (suc i) zero h t = absurd (omega arith)
  dot_order-IsMonotone c (e ∷ es) s (suc i) (suc j) h t =
      dot_order-IsMonotone c es s.1 i j (omega arith) t

  all_agree :
      (c : Counter) (es : List (Dot × T))
      → All (λ e. is_gt (dot_order c e) ≡ ltb_ℤ c e.0.counter) es
  all_agree c [] = tt
  all_agree c (e ∷ es) = (ground arith, all_agree c es)

  get_greater_iter_lem :
      (d : Dot) (m : DotMap T)
      → IsWf m
      → get_greater_iter d m ≡ filter (λ e. ltb_ℤ d.counter e.0.counter) (entries d.pid m)
  unfolding get_greater_iter
  get_greater_iter_lem d m w = go (Map.get d.pid m.map) (w.sorted d.pid)
    where
      go :
          (o : Option (List (Dot × T)))
          → IsSorted (or_nil o)
          → (elim o [
            | none ↦ []
            | some all ↦ drop (after (binary_search_by all (dot_order d.counter))) all
          ])
            ≡ filter (λ e. ltb_ℤ d.counter e.0.counter) (or_nil o)
      go none s = unfold filter in refl
      go (some all) s =
          drop-binary_search_by (dot_order d.counter) all (dot_order-IsMonotone d.counter all s)
          ∙ filter_congr (λ e. is_gt (dot_order d.counter e)) (λ e. ltb_ℤ d.counter e.0.counter) all
              (all_agree d.counter all)

  -- The entries of one replica among those of many.
  abbrev pub is_of : Pid → Dot × T → Bool
  is_of p e = ite (ℕ_discrete e.0.pid p) true false

  abbrev pub of_pid : Pid → List (Dot × T) → List (Dot × T)
  of_pid p = filter (is_of p)

  of_pid-same : (p q : Pid) (es : List (Dot × T)) → q ≡ p → All (HasPid q) es → of_pid p es ≡ es
  unfolding filter
  of_pid-same p q [] s h = refl
  of_pid-same p q (e ∷ es) s h = ground (arith, of_pid-same p q es s h.1, h.0)

  of_pid-other : (p q : Pid) (es : List (Dot × T)) → q ≢ p → All (HasPid q) es → of_pid p es ≡ []
  unfolding filter
  of_pid-other p q [] n h = refl
  of_pid-other p q (e ∷ es) n h = ground (arith, of_pid-other p q es n h.1, h.0)

  -- What the first loop gives of a replica.
  abbrev beyond : Pid → Option Counter → DotMap T → List (Dot × T)
  beyond p none m = []
  beyond p (some c) m = get_greater_iter (record { pid = p; counter = c }) m

  greater-HasPid : (d : Dot) (m : DotMap T) → IsWf m → All (HasPid d.pid) (get_greater_iter d m)
  greater-HasPid d m w = rw (get_greater_iter_lem d m w) (
      All-filter (HasPid d.pid) (λ e. ltb_ℤ d.counter e.0.counter) (entries d.pid m) (w.pids d.pid))

  of_pid-existing_keys :
      (p : Pid) (set : Map Pid Counter) (m : DotMap T)
      → IsWf m
      → Map.IsDistinct set
      → of_pid p (existing_keys set m) ≡ beyond p (Map.get p set) m
  unfolding existing_keys Map.get
  of_pid-existing_keys p [] m w d = unfold filter in refl
  of_pid-existing_keys p ((q, c) ∷ rest) m w d =
      let dot : Dot = record { pid = q; counter = c } in
      elim (ℕ_discrete q p) [
        | yes e ↦ ground (
          arith,
          filter-append (is_of p) (get_greater_iter dot m) (existing_keys rest m),
          of_pid-existing_keys p rest m w d.1,
          of_pid-same p q (get_greater_iter dot m) e (greater-HasPid dot m w),
          append-nil (get_greater_iter dot m),
          d.0,
        )
        | no n ↦ ground (
          arith,
          filter-append (is_of p) (get_greater_iter dot m) (existing_keys rest m),
          of_pid-existing_keys p rest m w d.1,
          of_pid-other p q (get_greater_iter dot m) n (greater-HasPid dot m w),
        )
      ]

  of_pid-missing_keys :
      (p : Pid) (rows : Map Pid (List (Dot × T))) (ds : DotSet)
      → Map.IsDistinct rows
      → ((q : Pid) → All (HasPid q) (or_nil (Map.get q rows)))
      → of_pid p (missing_keys rows ds)
        ≡ (if Map.contains_key p ds.set then [] else or_nil (Map.get p rows))
  unfolding missing_keys Map.get
  of_pid-missing_keys p [] ds d h = unfold filter in ground arith
  of_pid-missing_keys p ((k, vec) ∷ rest) ds d h = elim (ℕ_discrete k p) [
    | yes e ↦ ground (
      arith,
      filter-append (is_of p) vec (missing_keys rest ds),
      of_pid-missing_keys p rest ds d.1 rest_pids,
      of_pid-same p k vec e own_pids,
      append-nil vec,
      d.0,
    )
    | no n ↦ ground (
      arith,
      filter-append (is_of p) vec (missing_keys rest ds),
      of_pid-missing_keys p rest ds d.1 rest_pids,
      of_pid-other p k vec n own_pids,
    )
  ]
    where
      own_pids : All (HasPid k) vec
      own_pids = rw (if_pos (ℕ_discrete k k) refl (some vec)) at (h k)

      rest_pids : (q : Pid) → All (HasPid q) (or_nil (Map.get q rest))
      rest_pids q = elim (ℕ_discrete k q) [
        | yes e ↦ let gone : Map.get q rest ≡ none = rw e at d.0 in rw gone tt
        | no n ↦ rw (if_neg (ℕ_discrete k q) n (some vec)) at (h q)
      ]

  -- Whether the vector lacks the dot of an entry.
  abbrev pub uncovered : DotSet → Dot × T → Bool
  uncovered ds e = not (DotSet.contains e.0 ds)

  uncovered_agree :
      (p : Pid) (ds : DotSet) (es : List (Dot × T))
      → All (HasPid p) es
      → All (λ e. uncovered ds e ≡ not (Reads.covers e.0.counter (DotSet.counter p ds))) es
  uncovered_agree p ds [] h = tt
  uncovered_agree p ds (e ∷ es) h =
      (rw (Reads.contains-counter, h.0) refl, uncovered_agree p ds es h.1)

  filter-none_covered :
      (es : List (Dot × T)) → filter (λ e. not (Reads.covers e.0.counter none)) es ≡ es
  unfolding filter
  filter-none_covered [] = refl
  filter-none_covered (e ∷ es) = ground (arith, filter-none_covered es)

  covered_agree :
      (c : Counter) (es : List (Dot × T))
      → All (λ e. ltb_ℤ c e.0.counter ≡ not (Reads.covers e.0.counter (some c))) es
  covered_agree c [] = tt
  covered_agree c (e ∷ es) = (ground arith, covered_agree c es)

  -- On a well-formed log and a vector that holds each replica once, the entries of a replica in
  -- the answer are, in the order of the log, those that the vector lacks.
  pub get_all_greater_iter_lem :
      (p : Pid) (ds : DotSet) (m : DotMap T)
      → IsWf m
      → Reads.IsWf ds
      → of_pid p (get_all_greater_iter ds m) ≡ filter (uncovered ds) (entries p m)
  unfolding get_all_greater_iter
  get_all_greater_iter_lem p ds m w d =
      filter-append (is_of p) (existing_keys ds.set m) (missing_keys m.map ds)
      ∙ rw
          (
            of_pid-existing_keys p ds.set m w d,
            of_pid-missing_keys p m.map ds w.distinct w.pids,
            Map.contains_key-eq,
          )
          (by_counter (Map.get p ds.set) refl
            ∙ sym (
                filter_congr (uncovered ds) left (entries p m)
                  (uncovered_agree p ds (entries p m) (w.pids p))))
    where
      left : Dot × T → Bool
      left e = not (Reads.covers e.0.counter (DotSet.counter p ds))

      by_counter :
          (o : Option Counter)
          → Map.get p ds.set ≡ o
          → beyond p o m ++ (if Map.is_some o then [] else entries p m)
            ≡ filter (λ e. not (Reads.covers e.0.counter (DotSet.counter p ds))) (entries p m)
      by_counter none e = unfold DotSet.counter in rw e (sym (filter-none_covered (entries p m)))
      by_counter (some c) e =
          unfold DotSet.counter in
          rw e (
            append-nil (get_greater_iter (record { pid = p; counter = c }) m)
            ∙ get_greater_iter_lem (record { pid = p; counter = c }) m w
            ∙ filter_congr (λ e. ltb_ℤ c e.0.counter) (λ e. not (Reads.covers e.0.counter (some c)))
                (entries p m) (covered_agree c (entries p m)))
