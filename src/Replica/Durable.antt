-- ===== src/Replica/Durable.antt =====
-- What the journal of a replica (src/replica.rs) holds, and what markers and updates leave of the wrapper.
use gresse.Prelude.{
  ◌≡◌, refl, sym, Bool, true, false, Option, none, some, List, [], ◌∷◌, ◌++◌, if◌then◌else◌,
  Outcome, ok, >>=-eq-ok, expect, leb_ℤ, nat_key, arith,
}
use gresse.Map
use gresse.Set
use gresse.Dots.{Pid, Counter}
use gresse.Dots.DotSet
use gresse.Dots.DotSet.{DotSet}
use gresse.Dots.VersionMatrix
use gresse.Dots.VersionMatrix.{VersionMatrix}
use gresse.Dots.VersionMatrix.Rows
use gresse.DeltaGroup.{GcMarker}
use gresse.Crdt
use gresse.Crdt.{Crdt, CrdtWrapper, PersistentReplica, current_gc_marker, push_gc_marker}
use gresse.Journal.{DiskJournal, Serde, append_snapshot, returned, recover}
use gresse.Journal.Recovery.{
  IsFaithful, Entry, append_entry, append_entries, perform, perform_all, recover-append_entries,
}
use gresse.Replica.{Replica}

-- Whether a marker lists the replica as departed.
abbrev pub lists : GcMarker → Pid → Bool
lists marker pid = elim marker.departed_pids [ none ↦ false | some pids ↦ Set.contains pid pids ]

spares_own :
    (departed : Option (List Pid)) (stable : DotSet) (gc : Counter) (m : VersionMatrix)
    → elim departed [ none ↦ false | some pids ↦ Set.contains m.own_pid pids ] ≡ false
    → Rows.SparesOwn (Rows.gc_marker stable departed gc) m
spares_own none stable gc m h = tt
spares_own (some pids) stable gc m h = h

-- A marker that does not list the replica is taken.
pub push_gc_marker-HasOwnRow :
    (marker : GcMarker) (w : CrdtWrapper)
    → Rows.HasOwnRow w.version_matrix
    → lists marker (Crdt.own_pid w) ≡ false
    → (w' : CrdtWrapper) × (push_gc_marker marker w ≡ ok w')
      × (w'.gc_markers ≡ w.gc_markers ++ marker ∷ [])
      × (Crdt.own_pid w' ≡ Crdt.own_pid w)
      × Rows.HasOwnRow w'.version_matrix
unfolding push_gc_marker Crdt.own_pid
push_gc_marker-HasOwnRow marker w row spared =
    let op = Rows.gc_marker marker.stable marker.departed_pids marker.marker.counter in
    let (m, e, has) = Rows.apply-HasOwnRow op w.version_matrix row (
      spares_own marker.departed_pids marker.stable marker.marker.counter w.version_matrix
        spared) in
    let applied : VersionMatrix.apply_gc_marker marker.stable marker.departed_pids
          marker.marker.counter w.version_matrix
        ≡ ok m =
      unfold Rows.apply in e in
    (
      record { version_matrix = m; gc_markers = w.gc_markers ++ marker ∷ [] },
      rw applied refl,
      refl,
      Rows.own_pid-apply_gc_marker marker.stable marker.departed_pids marker.marker.counter
          w.version_matrix applied,
      has,
    )

-- What a marker leaves of the wrapper that takes it.
pub push_gc_marker-eq-ok :
    (marker : GcMarker) (w : CrdtWrapper) {w' : CrdtWrapper}
    → push_gc_marker marker w ≡ ok w'
    → (w'.gc_markers ≡ w.gc_markers ++ marker ∷ []) × (Crdt.own_pid w' ≡ Crdt.own_pid w)
unfolding push_gc_marker Crdt.own_pid
push_gc_marker-eq-ok marker w {w'} h =
    let next : VersionMatrix → Outcome CrdtWrapper =
      λ m. ok (record { version_matrix = m; gc_markers = w.gc_markers ++ marker ∷ [] }) in
    let (m, applied, made) =
      >>=-eq-ok
        (VersionMatrix.apply_gc_marker marker.stable marker.departed_pids marker.marker.counter
          w.version_matrix)
        next h in
    let e : w' ≡ record { version_matrix = m; gc_markers = w.gc_markers ++ marker ∷ [] } =
      ground arith in
    rw e (
      refl,
      Rows.own_pid-apply_gc_marker marker.stable marker.departed_pids marker.marker.counter
          w.version_matrix applied,
    )

pub own_pid-update :
    (pid : Pid) (vv : DotSet) (m : VersionMatrix) {m' : VersionMatrix}
    → VersionMatrix.update pid vv m ≡ ok m'
    → m'.own_pid ≡ m.own_pid
unfolding VersionMatrix.update
own_pid-update pid vv m {m'} h =
    let next : DotSet → Outcome VersionMatrix = λ own. ok (
      if leb_ℤ (DotSet.gc_counter own) (DotSet.gc_counter vv)
      then record m { matrix = Map.insert pid vv m.matrix }
      else m) in
    let (own, found, made) = >>=-eq-ok (expect (Map.get m.own_pid m.matrix)) next h in ground arith

pub update_own_version_vector-eq-ok :
    (vv : DotSet) (w : CrdtWrapper) {u : CrdtWrapper × DotSet}
    → Crdt.update_own_version_vector vv w ≡ ok u
    → ((u.0).gc_markers ≡ w.gc_markers) × (Crdt.own_pid (u.0) ≡ Crdt.own_pid w)
unfolding Crdt.update_own_version_vector Crdt.own_pid
update_own_version_vector-eq-ok vv w {u} h =
    let next : VersionMatrix → Outcome (CrdtWrapper × DotSet) =
      λ m. ok (record w { version_matrix = m }, Crdt.stamped w vv) in
    let (m, updated, made) =
      >>=-eq-ok
        (VersionMatrix.update (w.version_matrix).own_pid (Crdt.stamped w vv) w.version_matrix) next
        h in
    let pair : CrdtWrapper × DotSet = (record w { version_matrix = m }, Crdt.stamped w vv) in
    let e : u ≡ pair = ground arith in
    rw e
      (refl, own_pid-update (w.version_matrix).own_pid (Crdt.stamped w vv) w.version_matrix updated)

module _ {T D E M Value : Type 0} (ops : Crdt T D E M) (serde : Serde T D E M Value) where
  -- The journal holds a snapshot and the entries that lead from it to a state `back` that agrees
  -- with the replica on the data and on the markers.
  pub record IsDurable (r : Replica T) : Type 0 where
    pub start : DiskJournal
    pub base : PersistentReplica T
    pub entries : List (Entry ops serde)
    pub back : PersistentReplica T
    pub enabled : start.has_paths ≡ true
    pub logged :
        r.durability_journal
        ≡ append_entries ops serde entries (append_snapshot ops serde base start)
    pub performed : perform_all ops serde entries base ≡ ok back
    pub same_state : back.local_state ≡ r.crdt
    pub same_markers : (back.crdt_wrapper).gc_markers ≡ (r.crdt_wrapper).gc_markers
    pub same_pid : Crdt.own_pid back.crdt_wrapper ≡ Crdt.own_pid r.crdt_wrapper
    pub own_row : Rows.HasOwnRow (back.crdt_wrapper).version_matrix

  append_entries-push :
      (es : List (Entry ops serde)) (e : Entry ops serde) (j : DiskJournal)
      → append_entries ops serde (es ++ e ∷ []) j
        ≡ append_entry ops serde e (append_entries ops serde es j)
  append_entries-push [] e j = refl
  append_entries-push (x ∷ es) e j = append_entries-push es e (append_entry ops serde x j)

  perform_all-push :
      (es : List (Entry ops serde)) (e : Entry ops serde) (r : PersistentReplica T)
      {mid last : PersistentReplica T}
      → perform_all ops serde es r ≡ ok mid
      → perform ops serde e mid ≡ ok last
      → perform_all ops serde (es ++ e ∷ []) r ≡ ok last
  unfolding perform_all
  perform_all-push [] e r {mid} {last} h k =
      let same : mid ≡ r = ground arith in rw (sym same, k) refl
  perform_all-push (x ∷ es) e r h k =
      let (s, first, later) = >>=-eq-ok (perform ops serde x r) (perform_all ops serde es) h in
      rw first (perform_all-push es e s later k)

  -- One more entry, whose effect agrees with what the replica did.
  pub logged_step :
      (e : Entry ops serde) (r r' : Replica T) (d : IsDurable r) (last : PersistentReplica T)
      → r'.durability_journal ≡ append_entry ops serde e r.durability_journal
      → perform ops serde e d.back ≡ ok last
      → last.local_state ≡ r'.crdt
      → (last.crdt_wrapper).gc_markers ≡ (r'.crdt_wrapper).gc_markers
      → Crdt.own_pid last.crdt_wrapper ≡ Crdt.own_pid r'.crdt_wrapper
      → Rows.HasOwnRow (last.crdt_wrapper).version_matrix
      → IsDurable r'
  logged_step e r r' d last j p s m o row = record {
    start = d.start;
    base = d.base;
    entries = d.entries ++ e ∷ [];
    back = last;
    enabled = d.enabled;
    logged =
        rw
          (append_entries-push d.entries e (append_snapshot ops serde d.base d.start), sym d.logged)
          j;
    performed = perform_all-push d.entries e d.base d.performed p;
    same_state = s;
    same_markers = m;
    same_pid = o;
    own_row = row;
  }

  -- A replica whose journal is lost to a restart comes back with its data and its markers.
  pub recover-IsDurable :
      (r : Replica T)
      → IsFaithful ops serde
      → IsDurable r
      → (back : PersistentReplica T) × (recover ops serde r.durability_journal
          ≡ returned (r.durability_journal, some back))
        × (back.local_state ≡ r.crdt)
        × ((back.crdt_wrapper).gc_markers ≡ (r.crdt_wrapper).gc_markers)
        × (Crdt.own_pid back.crdt_wrapper ≡ Crdt.own_pid r.crdt_wrapper)
  recover-IsDurable r faithful d = (
    d.back,
    rw d.logged
        (recover-append_entries ops serde faithful d.start d.base d.entries d.enabled d.performed),
    d.same_state,
    d.same_markers,
    d.same_pid,
  )
