-- ===== src/Replica/Storage.antt =====
-- The handlers of src/replica.rs that call the object storage: the bootstrap, a round of garbage collection
-- and the shutdown, over the replica and its client.
pub mod Round
use gresse.Prelude.{
  ℤ, Bool, true, false, not, Option, none, some, List, [], ◌∷◌, if◌then◌else◌, Outcome, ok, panic,
  ◌>>=◌, expect, nat_key,
}
use gresse.Map.{Map}
use gresse.Dots.{Pid, Counter}
use gresse.Dots.DotSet
use gresse.Dots.DotSet.{DotSet}
use gresse.Dots.VersionMatrix
use gresse.DeltaGroup.{GcMarker}
use gresse.Crdt
use gresse.Crdt.{Crdt, PersistentReplica}
use gresse.Journal.{Serde}
use gresse.Replica
use gresse.Replica.{Replica, apply_gc_marker, next_marker, replica_descriptor, shutdown_descriptor}
use gresse.Replica.Descriptor.{ReplicaDescriptor, is_stable_membership}
use gresse.Replica.Descriptor.Display.{AddrText}
use gresse.ObjectStorage
use gresse.ObjectStorage.{
  ObjectStore, ObjectStorageClient, Codec, write_persistent_replica, read_persistent_replica,
}
use gresse.ObjectStorage.Membership.{
  write_membership_descriptor, write_membership_descriptor_payload, delete_membership_descriptor,
  delete_membership_descriptors_for_pid, list_membership_descriptors, register_and_list_members,
  client_of,
}
use gresse.ObjectStorage.Poll.{abort_membership_poll}

abbrev persistent : {T : Type 0} → Replica T → PersistentReplica T
persistent r = record { local_state = r.crdt; crdt_wrapper = r.crdt_wrapper }

module _ {Addr Location Response S : Type 0} (addr : AddrText Addr)
    (store : ObjectStore Location Response S) (address : Addr) where
  -- The descriptor if it was created.
  abbrev pub created_descriptor :
      ReplicaDescriptor Addr
      → ObjectStorageClient Addr S × ObjectStorage.Result Bool
      → ObjectStorageClient Addr S × Option (ReplicaDescriptor Addr)
  created_descriptor d (c, ObjectStorage.failed e) = (c, none)
  created_descriptor d (c, ObjectStorage.done false) = (c, none)
  created_descriptor d (c, ObjectStorage.done true) = (c, some d)

  unfoldable pub change_own_gc_counter :
      Pid
      → Counter
      → ObjectStorageClient Addr S
      → ObjectStorageClient Addr S × Option (ReplicaDescriptor Addr)
  change_own_gc_counter pid gc_counter c =
      let d : ReplicaDescriptor Addr = record {
        pid = pid;
        address = address;
        gc_counter = gc_counter;
        final_counter = none;
      } in
      created_descriptor d (write_membership_descriptor addr store d c)

  -- An unstable membership takes the new descriptor back; the listing after that is not read.
  abbrev pub validated :
      Pid
      → List (ReplicaDescriptor Addr)
      → ReplicaDescriptor Addr
      → ObjectStorageClient Addr S × Option (List (ReplicaDescriptor Addr))
      → ObjectStorageClient Addr S × Bool
  validated own previous d (c, none) = (delete_membership_descriptor addr store d c, false)
  validated own previous d (c, some current) =
      if is_stable_membership own previous (some current) then (c, true) else (
        client_of
            (list_membership_descriptors addr store (delete_membership_descriptor addr store d c)),
        false,
      )

  unfoldable pub validate_gc_membership :
      Pid
      → List (ReplicaDescriptor Addr)
      → ReplicaDescriptor Addr
      → ObjectStorageClient Addr S
      → ObjectStorageClient Addr S × Bool
  validate_gc_membership own previous d c =
      validated own previous d (list_membership_descriptors addr store c)

  -- `join_all`, one pid after the other.
  unfoldable pub delete_pids : List Pid → ObjectStorageClient Addr S → ObjectStorageClient Addr S
  delete_pids [] c = c
  delete_pids (pid ∷ pids) c =
      delete_pids pids (delete_membership_descriptors_for_pid addr store pid c)

  abbrev pub gc_departed_pids :
      Option (List Pid) → ObjectStorageClient Addr S → ObjectStorageClient Addr S
  gc_departed_pids none c = c
  gc_departed_pids (some pids) c = delete_pids pids c

  -- The descriptors of the departed are deleted once the state is written.
  abbrev pub after_write :
      Option (List Pid) → ObjectStorageClient Addr S × Bool → ObjectStorageClient Addr S × Bool
  after_write departed_pids (c, false) = (c, false)
  after_write departed_pids (c, true) = (gc_departed_pids departed_pids c, true)

  abbrev pub forget_if :
      ReplicaDescriptor Addr → ObjectStorageClient Addr S × Bool → ObjectStorageClient Addr S
  forget_if previous (c, false) = c
  forget_if previous (c, true) = delete_membership_descriptor addr store previous c

  module _ {T D E M Value : Type 0} (ops : Crdt T D E M) (serde : Serde T D E M Value)
      (replicas : Codec (PersistentReplica T)) where
    unfoldable pub write_initial_persistent_replica :
        Replica T → ObjectStorageClient Addr S → ObjectStorageClient Addr S
    write_initial_persistent_replica r c =
        client_of (write_persistent_replica store replicas (persistent r) c)

    unfoldable pub complete_local_gc :
        GcMarker
        → Replica T
        → ObjectStorageClient Addr S
        → Outcome (Replica T × (ObjectStorageClient Addr S × Bool))
    complete_local_gc marker r c = do
      r1 ← apply_gc_marker ops serde marker r
      ok (
        r1,
        after_write marker.departed_pids
            (write_persistent_replica store replicas (persistent r1) c),
      )

    abbrev pub gc_if :
        GcMarker
        → Replica T
        → ObjectStorageClient Addr S × Bool
        → Outcome (Replica T × ObjectStorageClient Addr S)
    gc_if marker r (c, false) = ok (r, c)
    gc_if marker r (c, true) = do
      done ← complete_local_gc marker r c
      ok (done.0, forget_if (replica_descriptor address r) (done.1))

    abbrev pub gc_with :
        List (ReplicaDescriptor Addr)
        → GcMarker
        → Replica T
        → ObjectStorageClient Addr S × Option (ReplicaDescriptor Addr)
        → Outcome (Replica T × ObjectStorageClient Addr S)
    gc_with previous marker r (c, none) = ok (r, c)
    gc_with previous marker r (c, some d) =
        gc_if marker r (validate_gc_membership r.pid previous d c)

    -- A round, where there is a stable frontier.
    abbrev pub gc_round :
        Option DotSet × Option (List Pid)
        → Replica T
        → ObjectStorageClient Addr S
        → Outcome (Replica T × ObjectStorageClient Addr S)
    gc_round (none, _) r c = ok (r, c)
    gc_round (some stable, departed_pids) r c =
        let marker = next_marker stable departed_pids r in
        gc_with c.membership_descriptors marker r
          (change_own_gc_counter r.pid (marker.marker).counter c)

    -- `init_gc`, with its calls of the object storage.
    unfoldable pub init_gc :
        Replica T → ObjectStorageClient Addr S → Outcome (Replica T × ObjectStorageClient Addr S)
    init_gc r c = do
      r1 ← Replica.refreshed ops serde r
      due ← Crdt.needs_gc r1.crdt_wrapper
      found ← VersionMatrix.get_stable (r1.crdt_wrapper).version_matrix
      (if due then gc_round found r1 c else ok (r1, c))

    -- `write_shutdown_descriptor` publishes the state of the replica under its last descriptor.
    unfoldable pub write_shutdown_descriptor :
        Codec T → Replica T → ObjectStorageClient Addr S → ObjectStorageClient Addr S
    write_shutdown_descriptor states r c = client_of (
        write_membership_descriptor_payload addr store states
          (shutdown_descriptor ops serde address r) r.crdt c)

    -- The replica has no writer any more.
    unfoldable pub shutdown :
        Codec T → Replica T → ObjectStorageClient Addr S → Replica T × ObjectStorageClient Addr S
    shutdown states r c =
        (record r { writers = [] }, abort_membership_poll (write_shutdown_descriptor states r c))

    abbrev bootstrapped :
        ObjectStorageClient Addr S × ObjectStorage.Result (Option (PersistentReplica T))
        → Replica T
        → Outcome (Replica T × ObjectStorageClient Addr S)
    bootstrapped (c, ObjectStorage.failed e) r = panic
    bootstrapped (c, ObjectStorage.done none) r = ok (
      Replica.bootstrap_from_object_storage ops serde none r,
      write_initial_persistent_replica r c,
    )
    bootstrapped (c, ObjectStorage.done (some found)) r =
        ok (Replica.bootstrap_from_object_storage ops serde (some found) r, c)

    abbrev with_members :
        ObjectStorageClient Addr S × Option (List (ReplicaDescriptor Addr))
        → Outcome (ObjectStorageClient Addr S)
    with_members (c, none) = panic
    with_members (c, some members) = ok c

    -- The two requests run together; here the state is read first.
    unfoldable pub bootstrap_from_object_storage :
        Replica T → ObjectStorageClient Addr S → Outcome (Replica T × ObjectStorageClient Addr S)
    bootstrap_from_object_storage r c =
        let read = read_persistent_replica store replicas c in
        do
          c1 ←
              with_members (
                register_and_list_members addr store (replica_descriptor address r)
                  (client_of read))
          bootstrapped (c1, read.1) r

    unfoldable pub bootstrap_from_durability :
        Replica T → ObjectStorageClient Addr S → Outcome (Replica T × ObjectStorageClient Addr S)
    bootstrap_from_durability r c = do
      c1 ← with_members (register_and_list_members addr store (replica_descriptor address r) c)
      ok (r, c1)
