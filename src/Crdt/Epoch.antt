-- ===== src/Crdt/Epoch.antt =====
-- The events of `CRDTWrapper` of src/crdt.rs, and the epoch of its own row.
use gresse.Prelude.{
  ◌≡◌, ◌≢◌, refl, true, none, some, List, [], ◌∷◌, ◌++◌, if◌then◌else◌, Outcome, ok, panic, ◌>>=◌,
  leb_ℤ, ℕ_discrete, nat_key, expect, arith,
}
use gresse.Map
use gresse.Dots.{Pid, Counter, Dot, stable_replica_pid, unseen}
use gresse.Dots.DotSet
use gresse.Dots.DotSet.{DotSet}
use gresse.Dots.DotSet.Reads
use gresse.Dots.VersionMatrix
use gresse.Dots.VersionMatrix.{VersionMatrix}
use gresse.Dots.VersionMatrix.Rows
use gresse.DeltaGroup.{GcMarker}
use gresse.Crdt.{
  CrdtWrapper, new, current_gc_marker, last, marker_or_initial, own_pid, stamped,
  update_own_version_vector, rebind_own_pid, observe_active_replica, observe_departed_replica,
  push_gc_marker,
}

-- The own row is there, and not ahead of the last marker.
pub record IsSynced (w : CrdtWrapper) : Type 0 where
  pub own : DotSet
  pub found : Map.get (own_pid w) w.version_matrix.matrix ≡ some own
  pub epoch : leb_ℤ (DotSet.gc_counter own) (current_gc_marker w).counter ≡ true

stamped-epoch :
    (w : CrdtWrapper) (vv : DotSet)
    → DotSet.gc_counter (stamped w vv) ≡ (current_gc_marker w).counter
unfolding stamped DotSet.gc_counter
stamped-epoch w vv = ground (
  arith,
  Reads.get-set_counter stable_replica_pid vv stable_replica_pid (current_gc_marker w).counter,
)

leb_refl : (c : Counter) → leb_ℤ c c ≡ true
leb_refl c = ground arith

last-push : (ms : List GcMarker) (m : GcMarker) → last (ms ++ m ∷ []) ≡ some m
unfolding last
last-push [] m = refl
last-push (a ∷ []) m = refl
last-push (a ∷ b ∷ ms) m = last-push (b ∷ ms) m

abbrev with_matrix : CrdtWrapper → VersionMatrix → CrdtWrapper
with_matrix w m = record w { version_matrix = m }

-- Where the own row is there and not ahead of the last marker, the outgoing vector is stored as
-- the own row and carries the counter of the last marker, and the own row is still not ahead.
pub update_own_version_vector_lem :
    (vv : DotSet) (w : CrdtWrapper)
    → IsSynced w
    → (w' : CrdtWrapper) × (update_own_version_vector vv w ≡ ok (w', stamped w vv))
      × (Map.get (own_pid w') w'.version_matrix.matrix ≡ some (stamped w vv))
      × (DotSet.gc_counter (stamped w vv) ≡ (current_gc_marker w').counter)
      × IsSynced w'
unfolding update_own_version_vector VersionMatrix.update own_pid current_gc_marker
update_own_version_vector_lem vv w s =
    let m = record w.version_matrix {
      matrix = Map.insert w.version_matrix.own_pid (stamped w vv) w.version_matrix.matrix;
    } in
    let e = stamped-epoch w vv in
    let row =
      Map.get-insert w.version_matrix.own_pid w.version_matrix.own_pid (stamped w vv)
        w.version_matrix.matrix in
    let found : Map.get w.version_matrix.own_pid m.matrix ≡ some (stamped w vv) =
      ground (arith, row) in
    (
      with_matrix w m,
      ground (arith, s.found, s.epoch, e),
      found,
      e,
      record {
        own = stamped w vv;
        found = found;
        epoch = rw e (leb_refl (current_gc_marker w).counter);
      },
    )

own_of_counter :
    (m : VersionMatrix) {gc : Counter}
    → VersionMatrix.own_gc_counter m ≡ ok gc
    → (own : DotSet) × (Map.get m.own_pid m.matrix ≡ some own) × (DotSet.gc_counter own ≡ gc)
unfolding VersionMatrix.own_gc_counter DotSet.gc_counter
own_of_counter m {gc} h =
    elim (Map.get m.own_pid m.matrix)
        as (λ o.
          (expect o >>= λ own. ok (DotSet.get stable_replica_pid own)) ≡ ok gc
          → (own : DotSet) × (o ≡ some own) × (DotSet.get stable_replica_pid own ≡ gc)) [
            | none ↦ λ e. absurd (clash e)
            | some own ↦ λ e. (own, refl, cc)
          ]
      h
  where
    clash : panic ≡ ok gc → ⊥
    clash e = cc

IsSynced-made :
    (m : VersionMatrix) (ms : List GcMarker) (marker : GcMarker)
    → VersionMatrix.own_gc_counter m ≡ ok marker.marker.counter
    → IsSynced (record { version_matrix = m; gc_markers = ms ++ marker ∷ [] })
unfolding own_pid current_gc_marker
IsSynced-made m ms marker h =
    let (own, found, epoch) = own_of_counter m h in
    record {
      own = own;
      found = found;
      epoch = rw (last-push ms marker, epoch) (leb_refl marker.marker.counter);
    }

-- A round of garbage collection: the marker is the last one, and the own row is in its epoch.
push_gc_marker-IsSynced :
    (marker : GcMarker) (w : CrdtWrapper) {m : VersionMatrix}
    → VersionMatrix.apply_gc_marker marker.stable marker.departed_pids marker.marker.counter
        w.version_matrix
      ≡ ok m
    → (w' : CrdtWrapper) × (push_gc_marker marker w ≡ ok w')
      × (current_gc_marker w' ≡ marker.marker)
      × IsSynced w'
unfolding push_gc_marker current_gc_marker VersionMatrix.apply_gc_marker
push_gc_marker-IsSynced marker w {m} h =
    let rest = VersionMatrix.remove_departed marker.departed_pids w.version_matrix in
    (
      record { version_matrix = m; gc_markers = w.gc_markers ++ marker ∷ [] },
      rw h refl,
      rw (last-push w.gc_markers marker) refl,
      IsSynced-made m w.gc_markers marker
          (Rows.install_stable-epoch marker.stable marker.marker.counter rest h),
    )

pub new-IsSynced : (pid : Pid) → IsSynced (new pid)
unfolding new VersionMatrix.new current_gc_marker last own_pid Map.insert Map.get DotSet.gc_counter
    ℕ_discrete
new-IsSynced pid =
    let own =
      DotSet.set_counter stable_replica_pid unseen (DotSet.set_counter pid unseen DotSet.new) in
    record {
      own = own;
      found = ground arith;
      epoch =
          rw
            (Reads.get-set_counter stable_replica_pid (DotSet.set_counter pid unseen DotSet.new)
              stable_replica_pid unseen)
            refl;
    }

-- What changes a replica's wrapper.
pub data Event : Type 0 where
  refresh : DotSet → Event
  receive : Pid → DotSet → Event
  rebind : Pid → DotSet → Event
  active : Pid → Counter → Event
  departed : Dot → Event
  collect : GcMarker → Event

abbrev with_row : CrdtWrapper → Outcome VersionMatrix → Outcome CrdtWrapper
with_row w found = do m ← found; ok (with_matrix w m)

unfoldable pub step : Event → CrdtWrapper → Outcome CrdtWrapper
step (refresh vv) w = do r ← update_own_version_vector vv w; ok (r.0)
step (receive pid vv) w = with_row w (VersionMatrix.update pid vv w.version_matrix)
step (rebind pid vv) w = ok (rebind_own_pid pid vv w)
step (active pid counter) w = ok (observe_active_replica pid counter w)
step (departed dot) w = ok (observe_departed_replica dot w)
step (collect marker) w = push_gc_marker marker w

-- A peer sends its own vector, and a marker does not list the replica itself.
abbrev pub IsFair : Event → CrdtWrapper → Type 0
IsFair (receive pid vv) w = pid ≢ own_pid w
IsFair (collect marker) w =
    Rows.SparesOwn (Rows.gc_marker marker.stable marker.departed_pids marker.marker.counter)
      w.version_matrix
IsFair _ w = Unit

other_row :
    (p : Pid) (vv own : DotSet) (w : CrdtWrapper)
    → p ≢ own_pid w
    → Map.get (own_pid w) w.version_matrix.matrix ≡ some own
    → Map.get (own_pid w) (Map.insert p vv w.version_matrix.matrix) ≡ some own
other_row p vv own w other found =
    ground (arith, other, Map.get-insert (own_pid w) p vv w.version_matrix.matrix)

receive-IsSynced :
    (p : Pid) (vv : DotSet) (w : CrdtWrapper)
    → p ≢ own_pid w
    → IsSynced w
    → (w' : CrdtWrapper) × (step (receive p vv) w ≡ ok w') × IsSynced w'
unfolding step VersionMatrix.update own_pid current_gc_marker
receive-IsSynced p vv w other s = (
  with_matrix w (
      if leb_ℤ (DotSet.gc_counter s.own) (DotSet.gc_counter vv)
      then record w.version_matrix { matrix = Map.insert p vv w.version_matrix.matrix }
      else w.version_matrix),
  rw s.found refl,
  record {
    own = s.own;
    found = ground (arith, s.found, other_row p vv s.own w other s.found);
    epoch = ground (arith, s.epoch);
  },
)

active-IsSynced :
    (p : Pid) (c : Counter) (w : CrdtWrapper) → IsSynced w → IsSynced (observe_active_replica p c w)
unfolding observe_active_replica VersionMatrix.insert_pid own_pid current_gc_marker
active-IsSynced p c w s =
    let row = DotSet.set_counter stable_replica_pid c (DotSet.set_counter p unseen DotSet.new) in
    record {
      own = s.own;
      found =
          ground
            (arith, s.found, Map.get-insert w.version_matrix.own_pid p row w.version_matrix.matrix);
      epoch = ground (arith, s.epoch);
    }

rebind-IsSynced : (p : Pid) (vv : DotSet) (w : CrdtWrapper) → IsSynced (rebind_own_pid p vv w)
unfolding rebind_own_pid VersionMatrix.rebind_own_pid own_pid current_gc_marker
rebind-IsSynced p vv w = record {
  own = stamped w vv;
  found = ground (arith, Map.get-insert p p (stamped w vv) w.version_matrix.matrix);
  epoch = rw (stamped-epoch w vv) (leb_refl (marker_or_initial (last w.gc_markers)).counter);
}

-- Where the own row is there and not ahead of the last marker, no event panics and that stays so,
-- if vectors received are of other replicas and no marker lists the replica itself.
pub step-IsSynced :
    (e : Event) (w : CrdtWrapper)
    → IsSynced w
    → IsFair e w
    → (w' : CrdtWrapper) × (step e w ≡ ok w') × IsSynced w'
unfolding step
step-IsSynced (refresh vv) w s f =
    let (w', e, _, _, s') = update_own_version_vector_lem vv w s in (w', rw e refl, s')
step-IsSynced (receive pid vv) w s f = receive-IsSynced pid vv w f s
step-IsSynced (rebind pid vv) w s f = (rebind_own_pid pid vv w, refl, rebind-IsSynced pid vv w)
step-IsSynced (active pid counter) w s f =
    (observe_active_replica pid counter w, refl, active-IsSynced pid counter w s)
step-IsSynced (departed dot) w s f = (
  observe_departed_replica dot w,
  refl,
  unfold observe_departed_replica VersionMatrix.insert_final_dot current_gc_marker own_pid in
      record { own = s.own; found = s.found; epoch = s.epoch },
)
step-IsSynced (collect marker) w s f =
    let has : Rows.HasOwnRow w.version_matrix = record {
      own = unfold own_pid in ground (arith, s.found);
    } in
    let (m, e, _) =
      Rows.apply-HasOwnRow (Rows.gc_marker marker.stable marker.departed_pids marker.marker.counter)
        w.version_matrix has f in
    let applied : VersionMatrix.apply_gc_marker marker.stable marker.departed_pids
          marker.marker.counter w.version_matrix
        ≡ ok m =
      unfold Rows.apply in e in
    let (w', e', _, s') = push_gc_marker-IsSynced marker w applied in (w', e', s')
