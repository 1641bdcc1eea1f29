-- ===== src/Dots/DotMap/Contents.antt =====
-- The log as a function from replicas to entries, and its invariant.
use gresse.Prelude.{
  ◌≡◌, refl, Bool, not, Option, none, some, List, [], ◌∷◌, ◌++◌, ite, if_pos, if_neg, All,
  All-append, All-filter, filter, ◌<ℤ◌, ℕ_discrete, nat_key, arith,
}
use gresse.Map
use gresse.Map.{Map}
use gresse.Dots.{Pid, Counter, Dot}
use gresse.Dots.DotMap.{DotMap, new, insert, retain, is_nil}

module _ {T : Type 0} where
  abbrev pub or_nil : Option (List (Dot × T)) → List (Dot × T)
  or_nil none = []
  or_nil (some vec) = vec

  -- The entries of a replica, oldest first.
  abbrev pub entries : Pid → DotMap T → List (Dot × T)
  entries p m = or_nil (Map.get p m.map)

  abbrev pub HasPid : Pid → Dot × T → Type 0
  HasPid p e = e.0.pid ≡ p

  abbrev pub Above : Counter → Dot × T → Type 0
  Above c e = c <ℤ e.0.counter

  -- Counters grow.
  abbrev pub IsSorted : List (Dot × T) → Type 0
  IsSorted [] = Unit
  IsSorted (e ∷ es) = All (Above e.0.counter) es × IsSorted es

  -- Every replica's entries bear its pid, and their counters grow.
  pub record IsWf (m : DotMap T) : Type 0 where
    pub distinct : Map.IsDistinct m.map
    pub pids : (p : Pid) → All (HasPid p) (entries p m)
    pub sorted : (p : Pid) → IsSorted (entries p m)

  pub entries-new : (p : Pid) → entries p new ≡ []
  unfolding new Map.get
  entries-new p = refl

  -- An entry is added behind those of its replica.
  pub entries-insert :
      (p : Pid) (d : Dot) (v : T) (m : DotMap T)
      → entries p (insert d v m)
        ≡ ite (ℕ_discrete d.pid p) (entries p m ++ (d, v) ∷ []) (entries p m)
  unfolding insert
  entries-insert p d v m =
      let push : List (Dot × T) → List (Dot × T) = λ vec. vec ++ (d, v) ∷ [] in
      ground (arith, Map.get-upsert p d.pid push ((d, v) ∷ []) m.map)

  or_nil-keep_if :
      (o : Option (List (Dot × T)))
      → or_nil (Map.keep_if (λ values. not (is_nil values)) o) ≡ or_nil o
  or_nil-keep_if none = refl
  or_nil-keep_if (some []) = refl
  or_nil-keep_if (some (e ∷ es)) = refl

  or_nil-filter :
      (test : Dot × T → Bool) (o : Option (List (Dot × T)))
      → or_nil (Map.map_option (filter test) o) ≡ filter test (or_nil o)
  unfolding filter
  or_nil-filter test none = refl
  or_nil-filter test (some es) = refl

  -- `retain` keeps of every replica what passes the test.
  pub entries-retain :
      (p : Pid) (test : Dot → T → Bool) (m : DotMap T)
      → Map.IsDistinct m.map
      → entries p (retain test m) ≡ filter (λ e. test e.0 e.1) (entries p m)
  unfolding retain
  entries-retain p test m w =
      let kept : List (Dot × T) → List (Dot × T) = filter (λ e. test e.0 e.1) in
      let full : Pid → List (Dot × T) → Bool = λ _ values. not (is_nil values) in
      ground (
        arith,
        Map.get-filter p full (Map.map_values kept m.map) (Map.map_values-IsDistinct kept m.map w),
        Map.get-map_values p kept m.map,
        or_nil-keep_if (Map.get p (Map.map_values kept m.map)),
        or_nil-filter (λ e. test e.0 e.1) (Map.get p m.map),
      )

  snoc-IsSorted :
      (d : Dot) (v : T) (es : List (Dot × T))
      → All (λ e. e.0.counter <ℤ d.counter) es
      → IsSorted es
      → IsSorted (es ++ (d, v) ∷ [])
  snoc-IsSorted d v [] h s = (tt, tt)
  snoc-IsSorted d v (e ∷ es) h s =
      (All-append (Above e.0.counter) es ((d, v) ∷ []) s.0 (h.0, tt), snoc-IsSorted d v es h.1 s.1)

  filter-IsSorted :
      (test : Dot × T → Bool) (es : List (Dot × T)) → IsSorted es → IsSorted (filter test es)
  unfolding filter
  filter-IsSorted test [] s = tt
  filter-IsSorted test (e ∷ es) s =
      ground (arith, filter-IsSorted test es s.1, All-filter (Above e.0.counter) test es s.0)

  pub new-IsWf : IsWf (new {T = T})
  unfolding new Map.get
  new-IsWf = record { distinct = tt; pids = λ p. tt; sorted = λ p. tt }

  -- A dot beyond the last one of its replica keeps the log in order.
  pub insert-IsWf :
      (d : Dot) (v : T) (m : DotMap T)
      → All (λ e. e.0.counter <ℤ d.counter) (entries d.pid m)
      → IsWf m
      → IsWf (insert d v m)
  insert-IsWf d v m last w = record {
    distinct =
        unfold insert in
        Map.upsert-IsDistinct d.pid (λ vec. vec ++ (d, v) ∷ []) ((d, v) ∷ []) m.map w.distinct;
    pids = λ p. rw entries-insert (elim (ℕ_discrete d.pid p) [
      | yes e ↦
          rw (if_pos (ℕ_discrete d.pid p) e (entries p m ++ (d, v) ∷ []))
            (All-append (HasPid p) (entries p m) ((d, v) ∷ []) (w.pids p) (e, tt))
      | no n ↦ rw (if_neg (ℕ_discrete d.pid p) n (entries p m ++ (d, v) ∷ [])) (w.pids p)
    ]);
    sorted = λ p. rw entries-insert (elim (ℕ_discrete d.pid p) [
      | yes e ↦
          rw (if_pos (ℕ_discrete d.pid p) e (entries p m ++ (d, v) ∷ []))
            (snoc-IsSorted d v (entries p m) (rw e at last) (w.sorted p))
      | no n ↦ rw (if_neg (ℕ_discrete d.pid p) n (entries p m ++ (d, v) ∷ [])) (w.sorted p)
    ]);
  }

  pub retain-IsWf : (test : Dot → T → Bool) (m : DotMap T) → IsWf m → IsWf (retain test m)
  retain-IsWf test m w = record {
    distinct =
        unfold retain in
        Map.filter-IsDistinct (λ _ values. not (is_nil values))
          (Map.map_values (filter (λ e. test e.0 e.1)) m.map)
          (Map.map_values-IsDistinct (filter (λ e. test e.0 e.1)) m.map w.distinct);
    pids = λ p.
        rw (entries-retain p test m w.distinct)
          (All-filter (HasPid p) (λ e. test e.0 e.1) (entries p m) (w.pids p));
    sorted = λ p.
        rw (entries-retain p test m w.distinct)
          (filter-IsSorted (λ e. test e.0 e.1) (entries p m) (w.sorted p));
  }
