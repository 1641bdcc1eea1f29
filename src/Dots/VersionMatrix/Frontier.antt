-- ===== src/Dots/VersionMatrix/Frontier.antt =====
-- `get_stable`: the frontier is the minimum over the rows that take part, and a departed replica
-- is reported once its last dot is in the stable row.
use gresse.Prelude.{
  ℕ, pos, ◌≡◌, refl, Bool, true, false, not, ◌&&◌, Option, none, some, List, [], ◌∷◌, ok, nat_key,
  leb, Option-cases, inl, inr, arith,
}
use gresse.Map
use gresse.Map.{Map}
use gresse.Set
use gresse.Dots.{Pid, Counter, Dot, stable_replica_pid, unseen}
use gresse.Dots.DotSet
use gresse.Dots.DotSet.{DotSet}
use gresse.Dots.DotSet.Reads
use gresse.Dots.DotSet.Minimum
use gresse.Dots.VersionMatrix.{
  VersionMatrix, takes_part, get_observer_rows, lower_rows, keep_columns, drop_columns,
  departed_pids, non_empty, stable_of, get_stable,
}

-- The dot number `n`, from 0 on, of a replica.
abbrev pub made : Pid → ℕ → Dot
made q n = record { pid = q; counter = pos n }

abbrev pub all_rows : Dot → Map Pid DotSet → Bool
all_rows d [] = true
all_rows d ((_, vv) ∷ rows) = DotSet.contains d vv && all_rows d rows

module _ (q : Pid) (n : ℕ) where
  contains-lower_rows :
      (rows : Map Pid DotSet) (s : DotSet)
      → DotSet.contains (made q n) (lower_rows rows s)
        ≡ DotSet.contains (made q n) s && all_rows (made q n) rows
  unfolding lower_rows
  contains-lower_rows [] s = ground arith
  contains-lower_rows ((p, vv) ∷ rows) s = ground (
    arith,
    contains-lower_rows rows (DotSet.pointwise_min s vv),
    Minimum.contains-pointwise_min q n s vv,
  )

  contains-keep_columns :
      (rows : Map Pid DotSet) (s : DotSet)
      → DotSet.contains (made q n) (keep_columns rows s) ≡ DotSet.contains (made q n) s
  unfolding keep_columns
  contains-keep_columns [] s = refl
  contains-keep_columns ((p, vv) ∷ rows) s = ground (
    arith,
    contains-keep_columns rows s,
    contains-keep_columns rows (DotSet.set_counter p unseen s),
    Reads.contains-counter (made q n) s,
    Reads.contains-counter (made q n) (DotSet.set_counter p unseen s),
    Reads.counter-set_counter q s p unseen,
  )

  contains-drop_columns :
      (pids : List Pid) (s : DotSet)
      → DotSet.contains (made q n) (drop_columns pids s)
        ≡ not (Set.contains q pids) && DotSet.contains (made q n) s
  unfolding drop_columns Set.contains
  contains-drop_columns [] s = refl
  contains-drop_columns (p ∷ pids) s = ground (
    arith,
    contains-drop_columns pids (DotSet.remove_pid p s),
    Reads.contains-counter (made q n) s,
    Reads.contains-counter (made q n) (DotSet.remove_pid p s),
    Reads.counter-remove_pid q s p,
  )

  -- A dot is in the frontier exactly if its replica is not reported as departed and every row
  -- that takes part has it.
  pub contains-get_stable :
      (m : VersionMatrix) {rows : Map Pid DotSet} {stable : DotSet} {departed : Option (List Pid)}
      → get_observer_rows m ≡ ok rows
      → get_stable m ≡ ok (some stable, departed)
      → (departed ≡ non_empty (departed_pids m))
        × (DotSet.contains (made q n) stable
            ≡ not (Set.contains q (departed_pids m)) && all_rows (made q n) rows)
  unfolding get_stable
  contains-get_stable m {rows} {stable} {departed} e h = from rows (rw e at h)
    where
      from :
          (rows : Map Pid DotSet)
          → ok (stable_of (departed_pids m) rows) ≡ ok (some stable, departed)
          → (departed ≡ non_empty (departed_pids m))
            × (DotSet.contains (made q n) stable
                ≡ not (Set.contains q (departed_pids m)) && all_rows (made q n) rows)
      from [] h = cc
      from ((p, vv) ∷ rows) h = ground (
        arith,
        contains-drop_columns (departed_pids m)
            (keep_columns ((p, vv) ∷ rows) (lower_rows rows vv)),
        contains-keep_columns ((p, vv) ∷ rows) (lower_rows rows vv),
        contains-lower_rows rows vv,
      )

all_rows-get :
    (d : Dot) (p : Pid) (rows : Map Pid DotSet) {vv : DotSet}
    → all_rows d rows ≡ true
    → Map.get p rows ≡ some vv
    → DotSet.contains d vv ≡ true
unfolding Map.get
all_rows-get d p [] h g = cc
all_rows-get d p ((k, w) ∷ rows) {vv} h g = ground (arith, all_rows-get d p rows {vv = vv})

-- In a matrix that holds each pid once, a dot with a counter from 0 on that the stable frontier
-- covers is in the row of every replica that takes part.
pub get_stable_safe :
    (m : VersionMatrix) {own stable : DotSet} {departed : Option (List Pid)} {vv : DotSet}
    (p q : Pid) (n : ℕ)
    → Map.IsDistinct m.matrix
    → Map.get m.own_pid m.matrix ≡ some own
    → get_stable m ≡ ok (some stable, departed)
    → Map.get p m.matrix ≡ some vv
    → takes_part own m.final_dots p ≡ true
    → DotSet.contains (made q n) stable ≡ true
    → DotSet.contains (made q n) vv ≡ true
unfolding get_observer_rows
get_stable_safe m {own} {stable} {departed} {vv} p q n distinct own_row h row part covered =
    let test : Pid → DotSet → Bool = λ pid _. takes_part own m.final_dots pid in
    let rows = Map.filter test m.matrix in
    let e : get_observer_rows m ≡ ok rows = rw own_row refl in
    let exact = (contains-get_stable q n m e h).1 in
    all_rows-get (made q n) p rows {vv = vv} (ground (arith, exact))
      (ground (arith, Map.get-filter p test m.matrix distinct))

-- The last dot of a replica is known, and is in the stable row.
abbrev pub final_is_stable : VersionMatrix → Pid → Bool
final_is_stable m q = elim (Map.get stable_replica_pid m.matrix) [
  | none ↦ false
  | some sv ↦ elim (Map.get q m.final_dots) [
    | none ↦ false
    | some c ↦ DotSet.contains (record { pid = q; counter = c }) sv
  ]
]

-- Where the last dots hold each pid once, a replica is reported as departed exactly if its last
-- dot is known and is in the stable row.
pub contains-departed_pids :
    (m : VersionMatrix) (q : Pid)
    → Map.IsDistinct m.final_dots
    → Set.contains q (departed_pids m) ≡ final_is_stable m q
unfolding departed_pids Set.contains
contains-departed_pids m q d = elim (Option-cases (Map.get stable_replica_pid m.matrix)) [
  | inl e ↦ ground arith
  | inr (sv, e) ↦
      let test : Pid → Counter → Bool =
        λ pid c. DotSet.contains (record { pid = pid; counter = c }) sv in
      ground (
        arith,
        Set.contains-sort_by leb q (Map.keys (Map.filter test m.final_dots)),
        Map.contains-keys q (Map.filter test m.final_dots),
        Map.get-filter q test m.final_dots d,
      )
]
