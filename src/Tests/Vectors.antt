-- ===== src/Tests/Vectors.antt =====
-- Version vectors and a version matrix of two replicas.
use Prim.Native.Nat.{Ordering}
use gresse.Prelude.{
  ℕ, ℤ, pos, negsuc, ◌≡◌, ◌≢◌, refl, Bool, true, false, not, ◌&&◌, ◌||◌, Option, none, some, List,
  [], ◌∷◌, if◌then◌else◌, Outcome, ok, panic, leb_ℤ, i64_max, ◌<ℤ◌, ◌≤ℤ◌, arith, nat_key,
  ℕ_discrete,
}
use gresse.Map
use gresse.Dots.{Pid, Counter, Dot, stable_replica_pid}
use gresse.Dots.DotSet
use gresse.Dots.DotSet.{DotSet}
use gresse.Dots.DotSet.Merge
use gresse.Dots.DotSet.Minimum
use gresse.Dots.DotSet.Increment
use gresse.Dots.DotSet.Compare
use gresse.Dots.VersionMatrix
use gresse.Dots.VersionMatrix.{VersionMatrix}
use gresse.Dots.VersionMatrix.Rows
use gresse.Dots.VersionMatrix.Frontier
use gresse.Crdt
use gresse.Crdt.{CrdtWrapper}
use gresse.Crdt.Epoch

abbrev left : DotSet
left = record { set = (1, pos 4) ∷ (2, pos 0) ∷ [] }

abbrev right : DotSet
right = record { set = (2, pos 3) ∷ [] }

abbrev dot : Dot
dot = record { pid = 2; counter = pos 2 }

left-IsWf : Map.IsDistinct left.set
unfolding Map.contains_key Map.get ℕ_discrete
left-IsWf = (refl, (refl, tt))

right-IsWf : Map.IsDistinct right.set
unfolding Map.contains_key Map.get ℕ_discrete
right-IsWf = (refl, tt)

contains-merge_example :
    DotSet.contains dot (DotSet.merge left right)
    ≡ DotSet.contains dot left || DotSet.contains dot right
contains-merge_example = Merge.contains-merge dot left right right-IsWf

contains-pointwise_min_example :
    DotSet.contains (record { pid = 2; counter = pos 2 }) (DotSet.pointwise_min left right)
    ≡ DotSet.contains (record { pid = 2; counter = pos 2 }) left
      && DotSet.contains (record { pid = 2; counter = pos 2 }) right
contains-pointwise_min_example = Minimum.contains-pointwise_min 2 2 left right

-- What the tests compute with.
abbrev program : Unit {0}
unfolding Map.get Map.insert Map.remove Map.filter Map.map_values Map.upsert Map.contains_key
    ℕ_discrete DotSet.get DotSet.counter DotSet.set_counter DotSet.remove_pid DotSet.contains
    DotSet.gc_counter DotSet.new DotSet.pointwise_min DotSet.lower_pids DotSet.pids
    gresse.Set.from_list gresse.Set.insert gresse.Set.contains VersionMatrix.new
    VersionMatrix.get_stable VersionMatrix.get_observer_rows VersionMatrix.departed_pids
    VersionMatrix.lower_rows VersionMatrix.keep_columns VersionMatrix.drop_columns
    VersionMatrix.is_excluded VersionMatrix.must_wait gresse.Prelude.sort_by
    gresse.Prelude.insert_by gresse.Prelude.ℤ_discrete VersionMatrix.apply_gc_marker
    VersionMatrix.remove_departed VersionMatrix.install_stable
program = tt

merge_semilattice_example :
    (DotSet.counter 2 (DotSet.merge left right) ≡ DotSet.counter 2 (DotSet.merge right left))
    × (DotSet.counter 2 (DotSet.merge (DotSet.merge left right) right)
        ≡ DotSet.counter 2 (DotSet.merge left (DotSet.merge right right)))
    × (DotSet.counter 2 (DotSet.merge left left) ≡ DotSet.counter 2 left)
merge_semilattice_example =
    Merge.merge_semilattice left right right left-IsWf right-IsWf right-IsWf 2

room : DotSet.get 1 left <ℤ i64_max
unfolding program
room = omega arith

increment_and_get-fresh_example :
    (t : DotSet) × (DotSet.increment_and_get 1 left ≡ ok (t, Increment.next_dot 1 left))
    × (DotSet.contains (Increment.next_dot 1 left) left ≡ false)
    × (DotSet.contains (Increment.next_dot 1 left) t ≡ true)
    × ((q : Pid) → 1 ≢ q → DotSet.counter q t ≡ DotSet.counter q left)
unfolding program
increment_and_get-fresh_example = Increment.increment_and_get-fresh 1 left room

behind :
    (p : Pid) (c : Counter)
    → DotSet.counter p (record { set = (1, pos 4) ∷ [] }) ≡ some c
    → DotSet.get p right ≤ℤ c
unfolding program
behind p c h = ground arith

cmp_blind_example :
    (DotSet.cmp (record { set = (1, pos 4) ∷ [] }) right ≡ Ordering.gt)
    × (DotSet.is_concurrent_with (record { set = (1, pos 4) ∷ [] }) right ≡ false)
unfolding program
cmp_blind_example = Compare.cmp_blind (record { set = (1, pos 4) ∷ [] }) right (refl, tt) behind

-- A matrix of the replicas 1 and 2 that knows the last dot of replica 3.
abbrev matrix : VersionMatrix
matrix = record {
  own_pid = 1;
  matrix =
      (0, record { set = (1, pos 1) ∷ (3, pos 0) ∷ [] })
      ∷ (1, record { set = (0, pos 0) ∷ (1, pos 4) ∷ (2, pos 3) ∷ (3, pos 0) ∷ [] })
      ∷ (2, record { set = (0, pos 0) ∷ (1, pos 2) ∷ (2, pos 3) ∷ (3, pos 0) ∷ [] })
      ∷ (3, record { set = (0, pos 0) ∷ (3, pos 0) ∷ [] })
      ∷ [];
  final_dots = (3, pos 0) ∷ [];
}

abbrev row_2 : DotSet
row_2 = record { set = (0, pos 0) ∷ (1, pos 2) ∷ (2, pos 3) ∷ (3, pos 0) ∷ [] }

get_stable_safe_example : DotSet.contains (record { pid = 1; counter = pos 2 }) row_2 ≡ true
unfolding program
get_stable_safe_example =
    Frontier.get_stable_safe matrix 2 1 2 (refl, (refl, (refl, (refl, tt)))) refl refl refl refl
      refl

contains-departed_pids_example :
    gresse.Set.contains 3 (VersionMatrix.departed_pids matrix) ≡ Frontier.final_is_stable matrix 3
unfolding program
contains-departed_pids_example = Frontier.contains-departed_pids matrix 3 (refl, tt)

apply-HasOwnRow_example :
    (m : VersionMatrix) × (Rows.apply (Rows.gc_marker left (some (3 ∷ [])) (pos 1)) matrix ≡ ok m)
    × Rows.HasOwnRow m
unfolding program
apply-HasOwnRow_example =
    Rows.apply-HasOwnRow (Rows.gc_marker left (some (3 ∷ [])) (pos 1)) matrix
      (record { own = refl }) refl

other : stable_replica_pid ≢ matrix.own_pid
other = λ e. omega arith

own_departed_panics_example :
    VersionMatrix.apply_gc_marker left (some (1 ∷ [])) (pos 1) matrix ≡ panic
unfolding program
own_departed_panics_example =
    Rows.own_departed_panics left (1 ∷ []) (pos 1) matrix refl other refl refl

abbrev after_marker : VersionMatrix
after_marker = record {
  own_pid = 1;
  matrix =
      (0, record { set = (1, pos 4) ∷ (2, pos 0) ∷ (0, pos 1) ∷ [] })
      ∷ (1, record { set = (0, pos 1) ∷ (1, pos 4) ∷ (2, pos 3) ∷ (3, pos 0) ∷ [] })
      ∷ (2, row_2)
      ∷ (3, record { set = (0, pos 0) ∷ (3, pos 0) ∷ [] })
      ∷ [];
  final_dots = (3, pos 0) ∷ [];
}

update-apply_gc_marker_example :
    VersionMatrix.update 2 right after_marker
    ≡ ok (
        if leb_ℤ (pos 1) (DotSet.gc_counter right)
        then record after_marker { matrix = Map.insert 2 right after_marker.matrix }
        else after_marker)
unfolding program
update-apply_gc_marker_example = Rows.update-apply_gc_marker left none (pos 1) matrix 2 right refl

abbrev wrapper : CrdtWrapper
wrapper = record { version_matrix = matrix; gc_markers = [] }

wrapper-IsSynced : Epoch.IsSynced wrapper
unfolding program Crdt.own_pid Crdt.current_gc_marker Crdt.last
wrapper-IsSynced = record {
  own = record { set = (0, pos 0) ∷ (1, pos 4) ∷ (2, pos 3) ∷ (3, pos 0) ∷ [] };
  found = refl;
  epoch = refl;
}

step-IsSynced_example :
    (w : CrdtWrapper) × (Epoch.step (Epoch.receive 2 right) wrapper ≡ ok w) × Epoch.IsSynced w
unfolding program Crdt.own_pid
step-IsSynced_example =
    Epoch.step-IsSynced (Epoch.receive 2 right) wrapper wrapper-IsSynced (λ e. omega arith)

update_own_version_vector_lem_example :
    (w : CrdtWrapper) × (Crdt.update_own_version_vector left wrapper
      ≡ ok (w, Crdt.stamped wrapper left))
    × (Map.get (Crdt.own_pid w) w.version_matrix.matrix ≡ some (Crdt.stamped wrapper left))
    × (DotSet.gc_counter (Crdt.stamped wrapper left) ≡ (Crdt.current_gc_marker w).counter)
    × Epoch.IsSynced w
update_own_version_vector_lem_example =
    Epoch.update_own_version_vector_lem left wrapper wrapper-IsSynced
