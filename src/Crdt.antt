-- ===== src/Crdt.antt =====
-- `CRDTWrapper`, `PersistentReplica` and the trait `CRDT` of src/crdt.rs: a replica's version matrix
-- with the markers of the rounds of garbage collection that it has seen.
pub mod Epoch
use gresse.Prelude.{
  ℤ, Bool, true, false, not, ◌||◌, Option, none, some, List, [], ◌∷◌, ◌++◌, ite, if◌then◌else◌,
  Outcome, ok, panic, ◌>>=◌, ltb_ℤ, succ_i64, i64_max, ℕ_discrete,
}
use gresse.Dots.{Pid, Counter, Dot, stable_replica_pid}
use gresse.Dots.DotSet
use gresse.Dots.DotSet.{DotSet}
use gresse.Dots.VersionMatrix
use gresse.Dots.VersionMatrix.{VersionMatrix}
use gresse.DeltaGroup.{DeltaGroup, GcMarker}

pub record CrdtWrapper : Type 0 where
  pub version_matrix : VersionMatrix
  pub gc_markers : List GcMarker

abbrev pub initial_gc_counter : Counter
initial_gc_counter = ℤ.pos 0

abbrev pub initial_marker : Dot
initial_marker = record { pid = stable_replica_pid; counter = initial_gc_counter }

unfoldable pub last : List GcMarker → Option GcMarker
last [] = none
last (marker ∷ []) = some marker
last (_ ∷ marker ∷ markers) = last (marker ∷ markers)

abbrev pub marker_or_initial : Option GcMarker → Dot
marker_or_initial none = initial_marker
marker_or_initial (some m) = m.marker

unfoldable pub new : Pid → CrdtWrapper
new own_pid = record { version_matrix = VersionMatrix.new own_pid; gc_markers = [] }

unfoldable pub current_gc_marker : CrdtWrapper → Dot
current_gc_marker w = marker_or_initial (last w.gc_markers)

unfoldable pub saturating_succ : Counter → Counter
saturating_succ c = if ltb_ℤ c i64_max then succ_i64 c else i64_max

unfoldable pub next_gc_marker : CrdtWrapper → Dot
next_gc_marker w = record {
  pid = stable_replica_pid;
  counter = saturating_succ (current_gc_marker w).counter;
}

unfoldable pub last_stable : CrdtWrapper → Option DotSet
last_stable w = elim (last w.gc_markers) [ none ↦ none | some m ↦ some m.stable ]

unfoldable pub own_pid : CrdtWrapper → Pid
own_pid w = w.version_matrix.own_pid

-- The counter of the current marker is written into an outgoing vector.
unfoldable pub stamped : CrdtWrapper → DotSet → DotSet
stamped w version_vector =
    DotSet.set_counter stable_replica_pid (current_gc_marker w).counter version_vector

unfoldable pub update_own_version_vector : DotSet → CrdtWrapper → Outcome (CrdtWrapper × DotSet)
update_own_version_vector version_vector w = do
  m ← VersionMatrix.update (own_pid w) (stamped w version_vector) w.version_matrix
  ok (record w { version_matrix = m }, stamped w version_vector)

unfoldable pub rebind_own_pid : Pid → DotSet → CrdtWrapper → CrdtWrapper
rebind_own_pid pid version_vector w = record w {
  version_matrix = VersionMatrix.rebind_own_pid pid (stamped w version_vector) w.version_matrix;
}

unfoldable pub observe_active_replica : Pid → Counter → CrdtWrapper → CrdtWrapper
observe_active_replica pid gc_counter w =
    ite (ℕ_discrete pid (own_pid w)) w
      (record w { version_matrix = VersionMatrix.insert_pid pid gc_counter w.version_matrix })

unfoldable pub should_fetch_departed_replica : Dot → CrdtWrapper → Bool
should_fetch_departed_replica final_dot w =
    not (VersionMatrix.contains_final_dot final_dot w.version_matrix)

unfoldable pub observe_departed_replica : Dot → CrdtWrapper → CrdtWrapper
observe_departed_replica final_dot w = record w {
  version_matrix = VersionMatrix.insert_final_dot final_dot w.version_matrix;
}

-- `self.last_stable() != Some(stable)`.
abbrev pub differs_from : DotSet → Option DotSet → Bool
differs_from stable none = true
differs_from stable (some old) = not (DotSet.eq old stable)

abbrev pub is_due : Option DotSet → Option DotSet × Option (List Pid) → Bool
is_due old (_, some _) = true
is_due old (none, none) = false
is_due old (some stable, none) = differs_from stable old

unfoldable pub needs_gc : CrdtWrapper → Outcome Bool
needs_gc w = do found ← VersionMatrix.get_stable w.version_matrix; ok (is_due (last_stable w) found)

unfoldable pub push_gc_marker : GcMarker → CrdtWrapper → Outcome CrdtWrapper
push_gc_marker marker w = do
  m ←
      VersionMatrix.apply_gc_marker marker.stable marker.departed_pids marker.marker.counter
        w.version_matrix
  ok (record { version_matrix = m; gc_markers = w.gc_markers ++ marker ∷ [] })

abbrev pub or_default : Option DotSet → DotSet
or_default none = DotSet.new
or_default (some s) = s

unfoldable pub gc_metadata : CrdtWrapper → Outcome GcMarker
gc_metadata w = elim (last w.gc_markers) [
  | some marker ↦ ok marker
  | none ↦ do
    found ← VersionMatrix.get_stable w.version_matrix
    ok (record {
      marker = current_gc_marker w;
      stable = or_default (found.0);
      departed_pids = none;
    })
]

-- The trait `CRDT`: the operations on a state `T` that a replica calls. A call that panics is
-- `panic`; what `mutate` and `query` answer to a client is not read by the replica.
pub record Crdt (T D E M : Type 0) : Type 0 where
  pub set_pid : Pid → T → T
  pub mutate : M → T → Outcome T
  pub get_version_vector : T → DotSet
  pub get_delta : DotSet → T → DeltaGroup D E
  pub merge_delta_group : DeltaGroup D E → T → Outcome T
  pub gc : DotSet → Option (List Pid) → T → T

pub record PersistentReplica (T : Type 0) : Type 0 where
  pub local_state : T
  pub crdt_wrapper : CrdtWrapper

module _ {T D E M : Type 0} (crdt : Crdt T D E M) where
  -- `PersistentReplica::rebind_own_pid`.
  unfoldable pub rebind_persistent : Pid → PersistentReplica T → PersistentReplica T
  rebind_persistent pid r =
      let local_state = crdt.set_pid pid r.local_state in
      record {
        local_state = local_state;
        crdt_wrapper = rebind_own_pid pid (crdt.get_version_vector local_state) r.crdt_wrapper;
      }
