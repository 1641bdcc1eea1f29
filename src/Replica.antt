-- ===== src/Replica.antt =====
-- `Replica` of src/replica.rs: the handlers of the run loop, over the state of a data type, the
-- wrapper with its version matrix, the journal and the peers that have a writer. What the object
-- storage answers and whether a channel takes a message are arguments.
pub mod Durable
pub mod Follows
pub mod Handlers
pub mod Polled
pub mod Run
pub mod Storage
pub mod Descriptor
use gresse.Prelude.{
  ℤ, Bool, true, false, not, ◌&&◌, ◌||◌, Option, none, some, List, [], ◌∷◌, ◌++◌, ite,
  if◌then◌else◌, Outcome, ok, panic, ◌>>=◌, ltb_ℤ, leb_ℤ, max_ℤ, ℕ_discrete, nat_key, filter,
}
use gresse.Map
use gresse.Map.{Map}
use gresse.Set
use gresse.Dots.{Pid, Counter, Dot, stable_replica_pid, unseen}
use gresse.Dots.DotSet
use gresse.Dots.DotSet.{DotSet}
use gresse.Dots.VersionMatrix
use gresse.DeltaGroup.{DeltaGroup, GcMarker}
use gresse.Crdt
use gresse.Crdt.{Crdt, CrdtWrapper, PersistentReplica, current_gc_marker, push_gc_marker}
use gresse.Journal.{
  DiskJournal, Serde, append_mutation, append_delta_group, append_gc_marker, append_snapshot,
}
use gresse.Replica.Descriptor.{ReplicaDescriptor, is_shutdown, counters_of, is_stable_membership}

pub record Replica (T : Type 0) : Type 0 where
  pub pid : Pid
  pub crdt : T
  pub crdt_wrapper : CrdtWrapper
  pub writers : List Pid
  pub durability_journal : DiskJournal

pub data ReplicaMessage (D E : Type 0) : Type 0 where
  delta_group : DeltaGroup D E → GcMarker → ReplicaMessage D E
  version_vector : Pid → DotSet → ReplicaMessage D E

-- What `try_send` returns.
pub data SendResult : Type 0 where
  sent : SendResult
  full : SendResult
  closed : SendResult

unfoldable pub effective_pid : {T : Type 0} → Pid → Option (PersistentReplica T) → Pid
effective_pid requested none = requested
effective_pid requested (some r) = Crdt.own_pid r.crdt_wrapper

abbrev without : Pid → List Pid → List Pid
without pid writers = Set.remove pid writers

abbrev nil_or : {D A : Type 0} → List D → A → A → A
nil_or [] empty filled = empty
nil_or (_ ∷ _) empty filled = filled

abbrev counter_or_unseen : Option Counter → Counter
counter_or_unseen none = unseen
counter_or_unseen (some c) = c

module _ {T : Type 0} where
  abbrev after_send : Pid → SendResult → Replica T → Replica T
  after_send pid closed r = record r { writers = without pid r.writers }
  after_send pid _ r = r

  abbrev pub next_marker : DotSet → Option (List Pid) → Replica T → GcMarker
  next_marker stable departed_pids r = record {
    marker = Crdt.next_gc_marker r.crdt_wrapper;
    stable = stable;
    departed_pids = departed_pids;
  }

abbrev final_dot_of : {Addr : Type 0} → ReplicaDescriptor Addr → Counter → Dot
final_dot_of d c = record { pid = d.pid; counter = c }

module _ {T Addr : Type 0} where
  abbrev departed : ReplicaDescriptor Addr → Counter → Replica T × Bool → Replica T
  departed d c (r, false) = r
  departed d c (r, true) = record r {
    crdt_wrapper = Crdt.observe_departed_replica (final_dot_of d c) r.crdt_wrapper;
    writers = without d.pid r.writers;
  }

  unfoldable pub replica_descriptor : Addr → Replica T → ReplicaDescriptor Addr
  replica_descriptor address r = record {
    pid = r.pid;
    address = address;
    gc_counter = (current_gc_marker r.crdt_wrapper).counter;
    final_counter = none;
  }

module _ {T D E M Value : Type 0} (ops : Crdt T D E M) (serde : Serde T D E M Value) where
  -- The first part of `with_config`: the identity and the state that a replica starts with.
  unfoldable pub start : Pid → T → DiskJournal → Option (PersistentReplica T) → Replica T
  start requested crdt journal recovered =
      let pid = effective_pid requested recovered in
      let found : PersistentReplica T = elim recovered [
        | none ↦ record { local_state = crdt; crdt_wrapper = Crdt.new pid }
        | some r ↦ r
      ] in
      let bound = Crdt.rebind_persistent ops pid found in
      record {
        pid = pid;
        crdt = bound.local_state;
        crdt_wrapper = bound.crdt_wrapper;
        writers = [];
        durability_journal = journal;
      }

  unfoldable pub refresh_own_version_vector : Replica T → Outcome (Replica T × DotSet)
  refresh_own_version_vector r = do
    u ← Crdt.update_own_version_vector (ops.get_version_vector r.crdt) r.crdt_wrapper
    ok (record r { crdt_wrapper = u.0 }, u.1)

  abbrev pub refreshed : Replica T → Outcome (Replica T)
  refreshed r = do u ← refresh_own_version_vector r; ok (u.0)

  -- The client's mutation is logged, then made.
  unfoldable pub handle_mutation : M → Replica T → Outcome (Replica T)
  handle_mutation m r = do
    t ← ops.mutate m r.crdt
    ok (record r {
      crdt = t;
      durability_journal = append_mutation ops serde m r.durability_journal;
    })

  unfoldable pub apply_gc_marker : GcMarker → Replica T → Outcome (Replica T)
  apply_gc_marker marker r = do
    w ← push_gc_marker marker r.crdt_wrapper
    ok (record r {
      crdt = ops.gc marker.stable marker.departed_pids r.crdt;
      crdt_wrapper = w;
      durability_journal = append_gc_marker ops serde marker r.durability_journal;
    })

  -- Markers of another pid, and those that are not newer than the current one, are ignored.
  unfoldable pub observe_gc : GcMarker → Replica T → Outcome (Replica T)
  observe_gc metadata r =
      ite (ℕ_discrete metadata.marker.pid stable_replica_pid)
        (if leb_ℤ metadata.marker.counter (current_gc_marker r.crdt_wrapper).counter
          then ok r
          else apply_gc_marker metadata r)
        (ok r)

  -- A delta group is logged, then merged.
  unfoldable pub merge_logged : DeltaGroup D E → Replica T → Outcome (Replica T)
  merge_logged delta r = do
    t ← ops.merge_delta_group delta r.crdt
    ok (record r {
      crdt = t;
      durability_journal = append_delta_group ops serde delta r.durability_journal;
    })

  -- A group of an earlier epoch is refused; a newer marker is taken over before the deltas.
  unfoldable pub handle_delta : DeltaGroup D E → GcMarker → Replica T → Outcome (Replica T)
  handle_delta delta gc_metadata r =
      if ltb_ℤ (DotSet.gc_counter delta.version_vector) (current_gc_marker r.crdt_wrapper).counter
      then ok r
      else do r1 ← observe_gc gc_metadata r; r2 ← merge_logged delta r1; refreshed r2

  -- The answer to a version vector: the missing deltas with the last marker, if a writer is there.
  unfoldable pub handle_version_vector :
      Pid → DotSet → SendResult → Replica T → Outcome (Replica T × Option (ReplicaMessage D E))
  handle_version_vector pid vv sending r = do
    m ← VersionMatrix.update pid vv (r.crdt_wrapper).version_matrix
    u ←
        Crdt.update_own_version_vector (ops.get_delta vv r.crdt).version_vector
          (record r.crdt_wrapper { version_matrix = m })
    metadata ← Crdt.gc_metadata (u.0)
    ok (elim (Set.contains pid r.writers) [
      | false ↦ (record r { crdt_wrapper = u.0 }, none)
      | true ↦ (
        after_send pid sending (record r { crdt_wrapper = u.0 }),
        some (delta_group (record (ops.get_delta vv r.crdt) { version_vector = u.1 }) metadata),
      )
    ])

  -- `chosen` is the peer that `random_writer` draws.
  unfoldable pub pull_delta :
      Option Pid → SendResult → Replica T → Outcome (Replica T × Option (ReplicaMessage D E))
  pull_delta none sending r = ok (r, none)
  pull_delta (some peer) sending r = do
    u ← refresh_own_version_vector r
    ok (after_send peer sending (u.0), some (version_vector r.pid (u.1)))

  -- `payload` is the state that the departed replica left, if it could be read.
  unfoldable pub merge_shutdown_payload : Option T → Replica T → Outcome (Replica T × Bool)
  merge_shutdown_payload none r = ok (r, false)
  merge_shutdown_payload (some shutdown_state) r =
      let delta = ops.get_delta (ops.get_version_vector r.crdt) shutdown_state in
      do r1 ← nil_or delta.list (ok r) (merge_logged delta r); r2 ← refreshed r1; ok (r2, true)

  module _ {Addr : Type 0} where
    unfoldable pub handle_shutdown_descriptor :
        ReplicaDescriptor Addr → Option T → Replica T → Outcome (Replica T)
    handle_shutdown_descriptor d payload r = elim d.final_counter [
      | none ↦ panic
      | some c ↦
          if not (Crdt.should_fetch_departed_replica (final_dot_of d c) r.crdt_wrapper)
          then ok r
          else do merged ← merge_shutdown_payload payload r; ok (departed d c merged)
    ]

    -- The loop of `apply_membership_poll` over the shutdown descriptors.
    unfoldable pub handle_departures :
        List (ReplicaDescriptor Addr)
        → (ReplicaDescriptor Addr → Option T)
        → Replica T
        → Outcome (Replica T)
    handle_departures [] payloads r = ok r
    handle_departures (d ∷ ds) payloads r =
        if is_shutdown d
        then (do r1 ← handle_shutdown_descriptor d (payloads d) r; handle_departures ds payloads r1)
        else handle_departures ds payloads r

    -- The descriptor that `write_shutdown_descriptor` publishes.
    unfoldable pub shutdown_descriptor : Addr → Replica T → ReplicaDescriptor Addr
    shutdown_descriptor address r = record (replica_descriptor address r) {
      final_counter =
          some (counter_or_unseen (DotSet.counter r.pid (ops.get_version_vector r.crdt)));
    }

    abbrev pub run_gc :
        List (ReplicaDescriptor Addr)
        → Bool
        → Option (List (ReplicaDescriptor Addr))
        → Option DotSet × Option (List Pid)
        → Replica T
        → Outcome (Replica T)
    run_gc previous created current (none, _) r = ok r
    run_gc previous created current (some stable, departed_pids) r =
        if created && is_stable_membership r.pid previous current
        then apply_gc_marker (next_marker stable departed_pids r) r
        else ok r

    -- `init_gc`: `previous` are the members before, `created` is whether the new descriptor could be
    -- written, and `current` are the members listed after that, if they could be listed.
    unfoldable pub init_gc :
        List (ReplicaDescriptor Addr)
        → Bool
        → Option (List (ReplicaDescriptor Addr))
        → Replica T
        → Outcome (Replica T)
    init_gc previous created current r = do
      r1 ← refreshed r
      due ← Crdt.needs_gc r1.crdt_wrapper
      found ← VersionMatrix.get_stable (r1.crdt_wrapper).version_matrix
      (if due then run_gc previous created current found r1 else ok r1)

  -- `bootstrap_from_object_storage`: the state that is found is rebound and logged.
  unfoldable pub bootstrap_from_object_storage :
      Option (PersistentReplica T) → Replica T → Replica T
  bootstrap_from_object_storage none r = record r {
    durability_journal =
        append_snapshot ops serde (record { local_state = r.crdt; crdt_wrapper = r.crdt_wrapper })
          r.durability_journal;
  }
  bootstrap_from_object_storage (some found) r =
      let bound = Crdt.rebind_persistent ops r.pid found in
      record r {
        crdt = bound.local_state;
        crdt_wrapper = bound.crdt_wrapper;
        durability_journal = append_snapshot ops serde bound r.durability_journal;
      }
