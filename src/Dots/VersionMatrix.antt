-- ===== src/Dots/VersionMatrix.antt =====
-- `VersionMatrix` of src/dots.rs: the version vector of every known replica, the stable frontier
-- among them under the pid 0, and the last dots of the replicas that have left.
pub mod Frontier
pub mod Departed
pub mod Rows
use gresse.Prelude.{
  Bool, true, false, not, ◌||◌, Option, none, some, List, [], ◌∷◌, ite, if◌then◌else◌, Outcome, ok,
  ◌>>=◌, expect, leb, leb_ℤ, sort_by, ℕ_discrete, ℤ_discrete, nat_key,
}
use gresse.Map
use gresse.Map.{Map}
use gresse.Dots.{Pid, Counter, Dot, stable_replica_pid, unseen}
use gresse.Dots.DotSet
use gresse.Dots.DotSet.{DotSet}

pub record VersionMatrix : Type 0 where
  pub own_pid : Pid
  pub matrix : Map Pid DotSet
  pub final_dots : Map Pid Counter

unfoldable pub new : Pid → VersionMatrix
new own = record {
  own_pid = own;
  matrix =
      Map.insert own
        (DotSet.set_counter stable_replica_pid unseen (DotSet.set_counter own unseen DotSet.new))
        Map.empty;
  final_dots = Map.empty;
}

-- A row of an earlier epoch of garbage collection is refused.
unfoldable pub update : Pid → DotSet → VersionMatrix → Outcome VersionMatrix
update pid version_vector m = do
  own ← expect (Map.get m.own_pid m.matrix)
  ok (
      if leb_ℤ (DotSet.gc_counter own) (DotSet.gc_counter version_vector)
      then record m { matrix = Map.insert pid version_vector m.matrix }
      else m)

unfoldable pub insert_pid : Pid → Counter → VersionMatrix → VersionMatrix
insert_pid pid gc_counter m =
    ite (ℕ_discrete pid stable_replica_pid) m (elim (Map.get pid m.matrix) [
      | some _ ↦ m
      | none ↦ record m {
        matrix =
            Map.insert pid
              (DotSet.set_counter stable_replica_pid gc_counter
                (DotSet.set_counter pid unseen DotSet.new))
              m.matrix;
      }
    ])

unfoldable pub rebind_own_pid : Pid → DotSet → VersionMatrix → VersionMatrix
rebind_own_pid pid version_vector m = record m {
  own_pid = pid;
  matrix = Map.insert pid version_vector m.matrix;
}

unfoldable pub own_gc_counter : VersionMatrix → Outcome Counter
own_gc_counter m = do
  own ← expect (Map.get m.own_pid m.matrix)
  ok (DotSet.get stable_replica_pid own)

-- The row, the last dot and every row's column of one replica are dropped.
unfoldable pub drop_pid : Pid → VersionMatrix → VersionMatrix
drop_pid pid m = record m {
  matrix = Map.map_values (DotSet.remove_pid pid) (Map.remove pid m.matrix);
  final_dots = Map.remove pid m.final_dots;
}

-- Whether a last dot is known that the stable frontier has not reached: `continue`.
unfoldable pub must_wait : DotSet → Pid → VersionMatrix → Bool
must_wait stable_vv pid m = elim (Map.get pid m.final_dots) [
  | none ↦ false
  | some c ↦ not (DotSet.contains (record { pid = pid; counter = c }) stable_vv)
]

unfoldable pub remove_loop : DotSet → List Pid → VersionMatrix → VersionMatrix
remove_loop stable_vv [] m = m
remove_loop stable_vv (pid ∷ pids) m =
    remove_loop stable_vv pids (if must_wait stable_vv pid m then m else drop_pid pid m)

unfoldable pub remove_pids : List Pid → VersionMatrix → VersionMatrix
remove_pids pids m = elim (Map.get stable_replica_pid m.matrix) [
  | none ↦ m
  | some stable_vv ↦ remove_loop stable_vv pids m
]

unfoldable pub remove_departed : Option (List Pid) → VersionMatrix → VersionMatrix
remove_departed none m = m
remove_departed (some pids) m = remove_pids pids m

-- The new stable row is in place before the own row is looked up.
unfoldable pub install_stable : DotSet → Counter → VersionMatrix → Outcome VersionMatrix
install_stable stable gc_counter m =
    let matrix =
      Map.insert stable_replica_pid (DotSet.set_counter stable_replica_pid gc_counter stable)
        m.matrix in
    do
      own ← expect (Map.get m.own_pid matrix)
      ok (record m {
        matrix = Map.insert m.own_pid (DotSet.set_counter stable_replica_pid gc_counter own) matrix;
      })

unfoldable pub apply_gc_marker :
    DotSet → Option (List Pid) → Counter → VersionMatrix → Outcome VersionMatrix
apply_gc_marker stable departed_pids gc_counter m =
    install_stable stable gc_counter (remove_departed departed_pids m)

-- Whether the last dot of a replica is in the own row: it takes no part any more.
unfoldable pub is_excluded : DotSet → Map Pid Counter → Pid → Bool
is_excluded own final_dots pid = elim (Map.get pid final_dots) [
  | none ↦ false
  | some c ↦ DotSet.contains (record { pid = pid; counter = c }) own
]

abbrev pub takes_part : DotSet → Map Pid Counter → Pid → Bool
takes_part own final_dots pid =
    ite (ℕ_discrete pid stable_replica_pid) false (not (is_excluded own final_dots pid))

unfoldable pub get_observer_rows : VersionMatrix → Outcome (Map Pid DotSet)
get_observer_rows m = do
  own ← expect (Map.get m.own_pid m.matrix)
  ok (Map.filter (λ pid _. takes_part own m.final_dots pid) m.matrix)

-- The loops of `get_stable`: the minimum, the columns of the rows, the columns that are dropped.
unfoldable pub lower_rows : Map Pid DotSet → DotSet → DotSet
lower_rows [] stable = stable
lower_rows ((_, vv) ∷ rows) stable = lower_rows rows (DotSet.pointwise_min stable vv)

unfoldable pub keep_columns : Map Pid DotSet → DotSet → DotSet
keep_columns [] stable = stable
keep_columns ((pid, _) ∷ rows) stable = keep_columns rows (elim (DotSet.counter pid stable) [
  | none ↦ DotSet.set_counter pid unseen stable
  | some _ ↦ stable
])

unfoldable pub drop_columns : List Pid → DotSet → DotSet
drop_columns [] stable = stable
drop_columns (pid ∷ pids) stable = drop_columns pids (DotSet.remove_pid pid stable)

unfoldable pub departed_pids : VersionMatrix → List Pid
departed_pids m = elim (Map.get stable_replica_pid m.matrix) [
  | none ↦ []
  | some stable_vv ↦ sort_by leb (
      Map.keys (
        Map.filter (λ pid c. DotSet.contains (record { pid = pid; counter = c }) stable_vv)
          m.final_dots))
]

abbrev pub non_empty : List Pid → Option (List Pid)
non_empty [] = none
non_empty (p ∷ ps) = some (p ∷ ps)

abbrev stable_of : List Pid → Map Pid DotSet → Option DotSet × Option (List Pid)
stable_of departed [] = (none, none)
stable_of departed ((pid, vv) ∷ rows) = (
  some (drop_columns departed (keep_columns ((pid, vv) ∷ rows) (lower_rows rows vv))),
  non_empty departed,
)

unfoldable pub get_stable : VersionMatrix → Outcome (Option DotSet × Option (List Pid))
get_stable m = do rows ← get_observer_rows m; ok (stable_of (departed_pids m) rows)

unfoldable pub insert_final_dot : Dot → VersionMatrix → VersionMatrix
insert_final_dot dot m = record m { final_dots = Map.insert dot.pid dot.counter m.final_dots }

unfoldable pub contains_final_dot : Dot → VersionMatrix → Bool
contains_final_dot dot m = elim (Map.get dot.pid m.final_dots) [
  | none ↦ false
  | some c ↦ ite (ℤ_discrete c dot.counter) true false
]
