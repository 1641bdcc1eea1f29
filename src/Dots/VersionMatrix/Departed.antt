-- ===== src/Dots/VersionMatrix/Departed.antt =====
-- `remove_pids`: which rows, columns and last dots are gone, and which wait for another round.
use gresse.Prelude.{
  ◌≡◌, refl, Bool, false, not, ◌&&◌, ◌||◌, Option, none, some, List, [], ◌∷◌, ite, if◌then◌else◌,
  ℕ_discrete, nat_key, Bool-cases, inl, inr, arith,
}
use gresse.Map
use gresse.Set
use gresse.Dots.{Pid, Counter, stable_replica_pid}
use gresse.Dots.DotSet
use gresse.Dots.DotSet.{DotSet}
use gresse.Dots.DotSet.Reads
use gresse.Dots.VersionMatrix.{VersionMatrix, drop_pid, must_wait, remove_loop, remove_pids}

-- The entry of a column in a row.
abbrev pub entry : Pid → Option DotSet → Option Counter
entry p none = none
entry p (some vv) = DotSet.counter p vv

-- Whether the replica is dropped: it is listed, and its last dot, if one is known, is stable.
abbrev pub is_removed : DotSet → List Pid → VersionMatrix → Pid → Bool
is_removed stable_vv pids m q = Set.contains q pids && not (must_wait stable_vv q m)

row-drop_pid :
    (p q : Pid) (m : VersionMatrix)
    → Map.get q (drop_pid p m).matrix
      ≡ ite (ℕ_discrete p q) none (Map.map_option (DotSet.remove_pid p) (Map.get q m.matrix))
unfolding drop_pid
row-drop_pid p q m = ground (
  arith,
  Map.get-map_values q (DotSet.remove_pid p) (Map.remove p m.matrix),
  Map.get-remove q p m.matrix,
)

entry-map_option :
    (p r : Pid) (o : Option DotSet)
    → entry r (Map.map_option (DotSet.remove_pid p) o) ≡ ite (ℕ_discrete p r) none (entry r o)
entry-map_option p r none = ground arith
entry-map_option p r (some vv) = Reads.counter-remove_pid r vv p

must_wait-drop_pid :
    (sv : DotSet) (p q : Pid) (m : VersionMatrix)
    → must_wait sv q (drop_pid p m) ≡ ite (ℕ_discrete p q) false (must_wait sv q m)
unfolding must_wait drop_pid
must_wait-drop_pid sv p q m = ground (arith, Map.get-remove q p m.final_dots)

final-drop_pid :
    (p q : Pid) (m : VersionMatrix)
    → Map.get q (drop_pid p m).final_dots ≡ ite (ℕ_discrete p q) none (Map.get q m.final_dots)
unfolding drop_pid
final-drop_pid p q m = Map.get-remove q p m.final_dots

module _ (sv : DotSet) (q : Pid) where
  -- The row stays exactly if the replica is not dropped.
  row-remove_loop :
      (pids : List Pid) (m : VersionMatrix)
      → Map.is_some (Map.get q (remove_loop sv pids m).matrix)
        ≡ Map.is_some (Map.get q m.matrix) && not (is_removed sv pids m q)
  unfolding remove_loop Set.contains
  row-remove_loop [] m = ground arith
  row-remove_loop (p ∷ ps) m = elim (Bool-cases (must_wait sv p m)) [
    | inl wait ↦ ground (arith, row-remove_loop ps m)
    | inr go ↦
        (ground (
          arith,
          row-remove_loop ps (drop_pid p m),
          row-drop_pid p q m,
          must_wait-drop_pid sv p q m,
        ))
  ]

  -- A column of a row that stays is dropped with its replica.
  entry-remove_loop :
      (r : Pid) (pids : List Pid) (m : VersionMatrix)
      → entry r (Map.get q (remove_loop sv pids m).matrix) ≡ (
          if is_removed sv pids m q || is_removed sv pids m r
          then none
          else entry r (Map.get q m.matrix))
  unfolding remove_loop Set.contains
  entry-remove_loop r [] m = ground arith
  entry-remove_loop r (p ∷ ps) m = elim (Bool-cases (must_wait sv p m)) [
    | inl wait ↦ ground (arith, entry-remove_loop r ps m)
    | inr go ↦
        (ground (
          arith,
          entry-remove_loop r ps (drop_pid p m),
          row-drop_pid p q m,
          entry-map_option p r (Map.get q m.matrix),
          must_wait-drop_pid sv p q m,
          must_wait-drop_pid sv p r m,
        ))
  ]

  final-remove_loop :
      (pids : List Pid) (m : VersionMatrix)
      → Map.get q (remove_loop sv pids m).final_dots
        ≡ (if is_removed sv pids m q then none else Map.get q m.final_dots)
  unfolding remove_loop Set.contains
  final-remove_loop [] m = ground arith
  final-remove_loop (p ∷ ps) m = elim (Bool-cases (must_wait sv p m)) [
    | inl wait ↦ ground (arith, final-remove_loop ps m)
    | inr go ↦
        (ground (
          arith,
          final-remove_loop ps (drop_pid p m),
          must_wait-drop_pid sv p q m,
          final-drop_pid p q m,
        ))
  ]

own_pid-remove_loop :
    (sv : DotSet) (pids : List Pid) (m : VersionMatrix)
    → (remove_loop sv pids m).own_pid ≡ m.own_pid
unfolding remove_loop drop_pid
own_pid-remove_loop sv [] m = refl
own_pid-remove_loop sv (p ∷ ps) m =
    ground (arith, own_pid-remove_loop sv ps m, own_pid-remove_loop sv ps (drop_pid p m))

-- With a stable row, a replica's row and last dot go exactly if it is listed and its last dot, if
-- one is known, is stable; the other rows lose its column and keep every other entry.
pub remove_pids_lem :
    (pids : List Pid) (m : VersionMatrix) {sv : DotSet}
    → Map.get stable_replica_pid m.matrix ≡ some sv
    → (q r : Pid)
    → (Map.is_some (Map.get q (remove_pids pids m).matrix)
        ≡ Map.is_some (Map.get q m.matrix) && not (is_removed sv pids m q))
      × (Map.get q (remove_pids pids m).final_dots
          ≡ (if is_removed sv pids m q then none else Map.get q m.final_dots))
      × (entry r (Map.get q (remove_pids pids m).matrix) ≡ (
          if is_removed sv pids m q || is_removed sv pids m r
          then none
          else entry r (Map.get q m.matrix)))
unfolding remove_pids
remove_pids_lem pids m {sv} h q r =
    rw (h, remove_pids)
      (row-remove_loop sv q pids m, final-remove_loop sv q pids m, entry-remove_loop sv q r pids m)

pub own_pid-remove_pids :
    (pids : List Pid) (m : VersionMatrix) → (remove_pids pids m).own_pid ≡ m.own_pid
unfolding remove_pids
own_pid-remove_pids pids m =
    elim (Map.get stable_replica_pid m.matrix)
      as (λ o.
        VersionMatrix.own_pid (elim o [ none ↦ m | some sv ↦ remove_loop sv pids m ]) ≡ m.own_pid) [
          | none ↦ refl
          | some sv ↦ own_pid-remove_loop sv pids m
        ]
