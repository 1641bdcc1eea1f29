-- ===== src/Tests/Runs.antt =====
-- A run of a replica of the counter, from its start to its shutdown.
use gresse.Prelude.{
  ℕ, pos, ◌≡◌, refl, true, false, none, some, List, [], ◌∷◌, Outcome, ok, panic, ℕ_discrete,
  nat_key, sort_by, insert_by,
}
use gresse.Map
use gresse.Set
use gresse.Dots.DotSet
use gresse.Dots.DotSet.{DotSet}
use gresse.Dots.VersionMatrix
use gresse.DeltaGroup.{DeltaGroup, GcMarker}
use gresse.Crdt
use gresse.Crdt.{PersistentReplica}
use gresse.Journal.{returned, recover}
use gresse.Network.{Member, enqueue_members, observe_all, discovered, shutdown_pids, is_skipped}
use gresse.Replica.{
  Replica, SendResult, handle_mutation, handle_delta, observe_gc, apply_gc_marker, merge_logged,
  pull_delta, refresh_own_version_vector, handle_departures, handle_shutdown_descriptor,
  merge_shutdown_payload, init_gc, bootstrap_from_object_storage, start, effective_pid,
}
use gresse.Replica.Descriptor.{is_shutdown}
use gresse.Replica.Follows.{Spared}
use gresse.Replica.Polled.{discover, apply_membership_poll}
use gresse.Replica.Run
use gresse.Tests.Journals.{counter, serde, faithful, journal}

-- A group of no deltas with the marker of a first garbage collection, and a replica that has left.
abbrev first_marker : GcMarker
first_marker = record {
  marker = record { pid = 0; counter = pos 1 };
  stable = record { set = [] };
  departed_pids = none;
}

abbrev no_deltas : DeltaGroup ℕ ℕ
no_deltas = record {
  list = [];
  side_effects = none;
  version_vector = record { set = (0, pos 1) ∷ [] };
}

abbrev leaver : Member
leaver = record { pid = 2; address = 80; gc_counter = pos 0; final_counter = some (pos 3) }

abbrev turns : List (Run.Turn ℕ ℕ ℕ ℕ)
turns =
    Run.mutation 3
    ∷ Run.connected 2
    ∷ Run.refresh
    ∷ Run.delta no_deltas first_marker
    ∷ Run.pull (some 2) SendResult.sent
    ∷ Run.gc_tick [] false none
    ∷ Run.polled (some (leaver ∷ [])) (λ _. some 4)
    ∷ Run.mutation 1
    ∷ []

abbrev booted : Replica ℕ
booted = Run.booted counter serde 1 5 journal none

abbrev reached : Outcome (Replica ℕ) → Replica ℕ
reached (ok r) = r
reached panic = booted

abbrev after : Replica ℕ
after = reached (Run.run counter serde [] turns true booted)

ran : Run.run counter serde [] turns true booted ≡ ok after
unfolding Run.run Run.take_turns Run.take_turn discover apply_membership_poll enqueue_members
    observe_all discovered shutdown_pids is_skipped is_shutdown ℕ_discrete handle_mutation
    handle_delta observe_gc apply_gc_marker merge_logged pull_delta refresh_own_version_vector
    handle_departures handle_shutdown_descriptor merge_shutdown_payload init_gc
    bootstrap_from_object_storage start effective_pid Crdt.new Crdt.rebind_persistent
    Crdt.rebind_own_pid Crdt.update_own_version_vector Crdt.observe_active_replica
    Crdt.observe_departed_replica Crdt.should_fetch_departed_replica Crdt.stamped
    Crdt.current_gc_marker Crdt.push_gc_marker Crdt.needs_gc Crdt.own_pid Crdt.last_stable Crdt.last
    VersionMatrix.new VersionMatrix.update VersionMatrix.rebind_own_pid VersionMatrix.insert_pid
    VersionMatrix.apply_gc_marker VersionMatrix.remove_departed VersionMatrix.install_stable
    VersionMatrix.insert_final_dot VersionMatrix.contains_final_dot VersionMatrix.get_stable
    VersionMatrix.get_observer_rows VersionMatrix.is_excluded VersionMatrix.lower_rows
    VersionMatrix.keep_columns VersionMatrix.drop_columns VersionMatrix.departed_pids
    DotSet.set_counter DotSet.gc_counter DotSet.get DotSet.counter DotSet.pids DotSet.contains
    DotSet.new DotSet.pointwise_min DotSet.lower_pids DotSet.eq Map.get Map.insert Map.remove
    Map.contains_key Map.filter Map.map_values Map.upsert Map.eq Map.is_submap sort_by insert_by
    Set.contains Set.insert Set.remove
ran = refl

after-Spared : Spared (Crdt.own_pid after.crdt_wrapper) (after.crdt_wrapper).gc_markers
unfolding Run.run Run.take_turns Run.take_turn discover apply_membership_poll enqueue_members
    observe_all discovered shutdown_pids is_skipped is_shutdown ℕ_discrete handle_mutation
    handle_delta observe_gc apply_gc_marker merge_logged pull_delta refresh_own_version_vector
    handle_departures handle_shutdown_descriptor merge_shutdown_payload init_gc
    bootstrap_from_object_storage start effective_pid Crdt.new Crdt.rebind_persistent
    Crdt.rebind_own_pid Crdt.update_own_version_vector Crdt.observe_active_replica
    Crdt.observe_departed_replica Crdt.should_fetch_departed_replica Crdt.stamped
    Crdt.current_gc_marker Crdt.push_gc_marker Crdt.needs_gc Crdt.own_pid Crdt.last_stable Crdt.last
    VersionMatrix.new VersionMatrix.update VersionMatrix.rebind_own_pid VersionMatrix.insert_pid
    VersionMatrix.apply_gc_marker VersionMatrix.remove_departed VersionMatrix.install_stable
    VersionMatrix.insert_final_dot VersionMatrix.contains_final_dot VersionMatrix.get_stable
    VersionMatrix.get_observer_rows VersionMatrix.is_excluded VersionMatrix.lower_rows
    VersionMatrix.keep_columns VersionMatrix.drop_columns VersionMatrix.departed_pids
    DotSet.set_counter DotSet.gc_counter DotSet.get DotSet.counter DotSet.pids DotSet.contains
    DotSet.new DotSet.pointwise_min DotSet.lower_pids DotSet.eq Map.get Map.insert Map.remove
    Map.contains_key Map.filter Map.map_values Map.upsert Map.eq Map.is_submap sort_by insert_by
    Set.contains Set.insert Set.remove
after-Spared = (refl, tt)

recover-run_example :
    (back : PersistentReplica ℕ) × (recover counter serde after.durability_journal
      ≡ returned (after.durability_journal, some back))
    × (back.local_state ≡ after.crdt)
    × ((back.crdt_wrapper).gc_markers ≡ (after.crdt_wrapper).gc_markers)
    × (Crdt.own_pid back.crdt_wrapper ≡ Crdt.own_pid after.crdt_wrapper)
recover-run_example =
    Run.recover-run counter serde faithful 1 5 journal none [] turns true refl ran after-Spared
