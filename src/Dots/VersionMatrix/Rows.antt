-- ===== src/Dots/VersionMatrix/Rows.antt =====
-- The own row: the invariant under which no operation panics, and the epochs of the rows.
use gresse.Prelude.{
  ◌≡◌, ◌≢◌, refl, true, false, Option, none, some, List, if◌then◌else◌, Outcome, ok, panic, leb_ℤ,
  nat_key, Option-cases, inl, inr, arith,
}
use gresse.Map
use gresse.Set
use gresse.Dots.{Pid, Counter, Dot, stable_replica_pid, unseen}
use gresse.Dots.DotSet
use gresse.Dots.DotSet.{DotSet}
use gresse.Dots.DotSet.Reads
use gresse.Dots.VersionMatrix.{
  VersionMatrix, new, update, insert_pid, rebind_own_pid, remove_departed, remove_pids,
  install_stable, apply_gc_marker, insert_final_dot, must_wait, own_gc_counter,
}
use gresse.Dots.VersionMatrix.Departed.{remove_pids_lem, own_pid-remove_pids}

-- Every `unwrap` and `expect` of the matrix is on this row.
pub record HasOwnRow (m : VersionMatrix) : Type 0 where
  pub own : Map.is_some (Map.get m.own_pid m.matrix) ≡ true

-- The calls that change a matrix.
pub data Op : Type 0 where
  update_row : Pid → DotSet → Op
  discover : Pid → Counter → Op
  rebind : Pid → DotSet → Op
  gc_marker : DotSet → Option (List Pid) → Counter → Op
  final_dot : Dot → Op

unfoldable pub apply : Op → VersionMatrix → Outcome VersionMatrix
apply (update_row pid vv) m = update pid vv m
apply (discover pid gc) m = ok (insert_pid pid gc m)
apply (rebind pid vv) m = ok (rebind_own_pid pid vv m)
apply (gc_marker stable departed gc) m = apply_gc_marker stable departed gc m
apply (final_dot dot) m = ok (insert_final_dot dot m)

-- A marker of garbage collection does not list the replica itself.
abbrev pub SparesOwn : Op → VersionMatrix → Type 0
SparesOwn (gc_marker stable (some pids) gc) m = Set.contains m.own_pid pids ≡ false
SparesOwn _ m = Unit

some_of : {A : Type 0} (o : Option A) → Map.is_some o ≡ true → (a : A) × (o ≡ some a)
some_of none h = cc
some_of (some a) h = (a, refl)

new-HasOwnRow : (own : Pid) → HasOwnRow (new own)
unfolding new Map.get Map.insert
new-HasOwnRow own = record { own = ground arith }

insert_row :
    (p q : Pid) (vv : DotSet) (rows : Map.Map Pid DotSet)
    → Map.is_some (Map.get q rows) ≡ true
    → Map.is_some (Map.get q (Map.insert p vv rows)) ≡ true
insert_row p q vv rows h = ground (arith, Map.get-insert q p vv rows)

update-HasOwnRow :
    (pid : Pid) (vv : DotSet) (m : VersionMatrix)
    → HasOwnRow m
    → (m' : VersionMatrix) × (update pid vv m ≡ ok m') × HasOwnRow m'
unfolding update
update-HasOwnRow pid vv m h =
    let (own, found) = some_of (Map.get m.own_pid m.matrix) h.own in
    (
      if leb_ℤ (DotSet.gc_counter own) (DotSet.gc_counter vv)
          then record m { matrix = Map.insert pid vv m.matrix }
          else m,
      rw found refl,
      record { own = ground (arith, insert_row pid m.own_pid vv m.matrix) },
    )

pub install_stable-HasOwnRow :
    (stable : DotSet) (gc : Counter) (m : VersionMatrix)
    → HasOwnRow m
    → (m' : VersionMatrix) × (install_stable stable gc m ≡ ok m') × HasOwnRow m'
unfolding install_stable
install_stable-HasOwnRow stable gc m h =
    let row = DotSet.set_counter stable_replica_pid gc stable in
    let matrix = Map.insert stable_replica_pid row m.matrix in
    let present = insert_row stable_replica_pid m.own_pid row m.matrix h.own in
    let (own, found) = some_of (Map.get m.own_pid matrix) present in
    (
      record m {
        matrix = Map.insert m.own_pid (DotSet.set_counter stable_replica_pid gc own) matrix;
      },
      rw found refl,
      record { own = insert_row m.own_pid m.own_pid _ matrix present },
    )

own_row_kept :
    (pids : List Pid) (m : VersionMatrix)
    → HasOwnRow m
    → Set.contains m.own_pid pids ≡ false
    → Map.is_some (Map.get (remove_pids pids m).own_pid (remove_pids pids m).matrix) ≡ true
own_row_kept pids m h s = elim (Option-cases (Map.get stable_replica_pid m.matrix)) [
  | inl e ↦ unfold remove_pids in rw (e, remove_pids) h.own
  | inr (sv, e) ↦
      rw (own_pid-remove_pids pids m)
        (ground (arith, (remove_pids_lem pids m e m.own_pid m.own_pid).0, h.own))
]

discover-HasOwnRow :
    (pid : Pid) (gc : Counter) (m : VersionMatrix) → HasOwnRow m → HasOwnRow (insert_pid pid gc m)
unfolding insert_pid
discover-HasOwnRow pid gc m h =
    let row = DotSet.set_counter stable_replica_pid gc (DotSet.set_counter pid unseen DotSet.new) in
    ground (arith, insert_row pid m.own_pid row m.matrix)

pub rebind-HasOwnRow :
    (pid : Pid) (vv : DotSet) (m : VersionMatrix) → HasOwnRow (rebind_own_pid pid vv m)
unfolding rebind_own_pid
rebind-HasOwnRow pid vv m = record { own = ground (arith, Map.get-insert pid pid vv m.matrix) }

remove_departed-HasOwnRow :
    (departed : Option (List Pid)) (stable : DotSet) (gc : Counter) (m : VersionMatrix)
    → HasOwnRow m
    → SparesOwn (gc_marker stable departed gc) m
    → HasOwnRow (remove_departed departed m)
unfolding remove_departed
remove_departed-HasOwnRow none stable gc m h s = h
remove_departed-HasOwnRow (some pids) stable gc m h s = record { own = own_row_kept pids m h s }

-- With the own row present, no call that changes the matrix panics and the own row stays, provided
-- that a garbage collection marker does not list the replica itself.
pub apply-HasOwnRow :
    (op : Op) (m : VersionMatrix)
    → HasOwnRow m
    → SparesOwn op m
    → (m' : VersionMatrix) × (apply op m ≡ ok m') × HasOwnRow m'
unfolding apply
apply-HasOwnRow (update_row pid vv) m h s = update-HasOwnRow pid vv m h
apply-HasOwnRow (discover pid gc) m h s = (insert_pid pid gc m, refl, discover-HasOwnRow pid gc m h)
apply-HasOwnRow (rebind pid vv) m h s = (rebind_own_pid pid vv m, refl, rebind-HasOwnRow pid vv m)
apply-HasOwnRow (gc_marker stable departed gc) m h s =
    unfold apply_gc_marker in
    install_stable-HasOwnRow stable gc (remove_departed departed m)
      (remove_departed-HasOwnRow departed stable gc m h s)
apply-HasOwnRow (final_dot dot) m h s =
    (insert_final_dot dot m, refl, record { own = unfold insert_final_dot in h.own })

pub install_stable-epoch :
    (stable : DotSet) (gc : Counter) (m : VersionMatrix) {m' : VersionMatrix}
    → install_stable stable gc m ≡ ok m'
    → own_gc_counter m' ≡ ok gc
unfolding install_stable own_gc_counter
install_stable-epoch stable gc m {m'} h =
    let row = DotSet.set_counter stable_replica_pid gc stable in
    let matrix = Map.insert stable_replica_pid row m.matrix in
    elim (Option-cases (Map.get m.own_pid matrix)) [
      | inl e ↦ absurd (clash (rw e at h))
      | inr (own, e) ↦ ground (
        arith,
        Map.get-insert m.own_pid m.own_pid (DotSet.set_counter stable_replica_pid gc own) matrix,
        Reads.get-set_counter stable_replica_pid own stable_replica_pid gc,
      )
    ]
  where
    clash : panic ≡ ok m' → ⊥
    clash e = cc

update_of_epoch :
    (pid : Pid) (vv : DotSet) (gc : Counter) (m : VersionMatrix)
    → own_gc_counter m ≡ ok gc
    → update pid vv m
      ≡ ok (
          if leb_ℤ gc (DotSet.gc_counter vv)
          then record m { matrix = Map.insert pid vv m.matrix }
          else m)
unfolding update own_gc_counter DotSet.gc_counter
update_of_epoch pid vv gc m h = ground arith

-- After a marker of some epoch, a row is taken exactly if it has reached that epoch.
pub update-apply_gc_marker :
    (stable : DotSet) (departed : Option (List Pid)) (gc : Counter) (m : VersionMatrix) (pid : Pid)
    (vv : DotSet) {m' : VersionMatrix}
    → apply_gc_marker stable departed gc m ≡ ok m'
    → update pid vv m'
      ≡ ok (
          if leb_ℤ gc (DotSet.gc_counter vv)
          then record m' { matrix = Map.insert pid vv m'.matrix }
          else m')
unfolding apply_gc_marker
update-apply_gc_marker stable departed gc m pid vv {m'} h =
    update_of_epoch pid vv gc m' (install_stable-epoch stable gc (remove_departed departed m) h)

-- With a stable row present and an own pid other than 0, a marker that lists the replica itself
-- panics, unless its own last dot is known and not stable.
pub own_departed_panics :
    (stable : DotSet) (pids : List Pid) (gc : Counter) (m : VersionMatrix) {sv : DotSet}
    → Map.get stable_replica_pid m.matrix ≡ some sv
    → stable_replica_pid ≢ m.own_pid
    → Set.contains m.own_pid pids ≡ true
    → must_wait sv m.own_pid m ≡ false
    → apply_gc_marker stable (some pids) gc m ≡ panic
unfolding apply_gc_marker install_stable remove_departed
own_departed_panics stable pids gc m {sv} e other listed go =
    let rest = remove_pids pids m in
    let row = DotSet.set_counter stable_replica_pid gc stable in
    let gone : Map.get rest.own_pid (Map.insert stable_replica_pid row rest.matrix) ≡ none =
      ground (
        arith,
        (remove_pids_lem pids m e m.own_pid m.own_pid).0,
        own_pid-remove_pids pids m,
        Map.get-insert m.own_pid stable_replica_pid row rest.matrix,
      ) in
    rw gone refl

own_pid-remove_departed :
    (departed : Option (List Pid)) (m : VersionMatrix)
    → (remove_departed departed m).own_pid ≡ m.own_pid
unfolding remove_departed
own_pid-remove_departed none m = refl
own_pid-remove_departed (some pids) m = own_pid-remove_pids pids m

pub own_pid-apply_gc_marker :
    (stable : DotSet) (departed : Option (List Pid)) (gc : Counter) (m : VersionMatrix)
    {m' : VersionMatrix}
    → apply_gc_marker stable departed gc m ≡ ok m'
    → m'.own_pid ≡ m.own_pid
unfolding apply_gc_marker install_stable
own_pid-apply_gc_marker stable departed gc m {m'} h =
    let rest = remove_departed departed m in
    let row = DotSet.set_counter stable_replica_pid gc stable in
    let matrix = Map.insert stable_replica_pid row rest.matrix in
    elim (Option-cases (Map.get rest.own_pid matrix)) [
      | inl e ↦ absurd (clash (rw e at h))
      | inr (own, e) ↦ ground (arith, own_pid-remove_departed departed m)
    ]
  where
    clash : panic ≡ ok m' → ⊥
    clash e = cc
