-- ===== src/Replica/Storage/Round.antt =====
-- A round of garbage collection over the object storage is, for the replica, a round of `Replica.init_gc`.
use gresse.Prelude.{
  ◌≡◌, refl, Bool, true, false, Option, none, some, List, Outcome, ok, panic, Bool-cases, inl, inr,
  sym, >>=-eq-ok, arith,
}
use gresse.Dots.{Pid}
use gresse.Dots.DotSet.{DotSet}
use gresse.Dots.VersionMatrix
use gresse.DeltaGroup.{GcMarker}
use gresse.Crdt
use gresse.Crdt.{Crdt, CrdtWrapper, PersistentReplica}
use gresse.Journal.{Serde}
use gresse.Replica
use gresse.Replica.Durable.{update_own_version_vector-eq-ok}
use gresse.Replica.{
  refresh_own_version_vector, Replica, apply_gc_marker, next_marker, run_gc, replica_descriptor,
  refreshed,
}
use gresse.Replica.Descriptor.{ReplicaDescriptor, is_stable_membership}
use gresse.Replica.Descriptor.Display.{AddrText}
use gresse.ObjectStorage
use gresse.ObjectStorage.{ObjectStore, ObjectStorageClient, Codec}
use gresse.ObjectStorage.Membership.{list_membership_descriptors, write_membership_descriptor}
use gresse.Replica.Storage.{
  complete_local_gc, gc_if, gc_with, gc_round, init_gc, validated, validate_gc_membership,
  change_own_gc_counter, created_descriptor,
}

module _ {Addr Location Response S : Type 0} (addr : AddrText Addr)
    (store : ObjectStore Location Response S) (address : Addr) {T D E M Value : Type 0}
    (ops : Crdt T D E M) (serde : Serde T D E M Value)
    (replicas : Codec (PersistentReplica T)) where
  abbrev pub replica_of : Outcome (Replica T × ObjectStorageClient Addr S) → Outcome (Replica T)
  replica_of panic = panic
  replica_of (ok (r, c)) = ok r

  abbrev pub succeeded : ObjectStorage.Result Bool → Bool
  succeeded (ObjectStorage.failed e) = false
  succeeded (ObjectStorage.done created) = created

  -- The descriptor of the next round.
  abbrev pub announced : Replica T → ReplicaDescriptor Addr
  announced r = record {
    pid = r.pid;
    address = address;
    gc_counter = (Crdt.next_gc_marker r.crdt_wrapper).counter;
    final_counter = none;
  }

  gc_if-true :
      (marker : GcMarker) (r : Replica T) (c : ObjectStorageClient Addr S)
      → replica_of (gc_if addr store address ops serde replicas marker r (c, true))
        ≡ apply_gc_marker ops serde marker r
  unfolding complete_local_gc
  gc_if-true marker r c = by_outcome (apply_gc_marker ops serde marker r) refl
    where
      by_outcome :
          (o : Outcome (Replica T))
          → apply_gc_marker ops serde marker r ≡ o
          → replica_of (gc_if addr store address ops serde replicas marker r (c, true))
            ≡ apply_gc_marker ops serde marker r
      by_outcome panic e = rw e refl
      by_outcome (ok r1) e = rw e refl

  validated-true :
      (own : Pid) (previous : List (ReplicaDescriptor Addr)) (d : ReplicaDescriptor Addr)
      (listing : ObjectStorageClient Addr S × Option (List (ReplicaDescriptor Addr)))
      → (c : ObjectStorageClient Addr S) × (stable : Bool) × (validated addr store address own
            previous d listing
          ≡ (c, stable))
        × (stable ≡ is_stable_membership own previous (listing.1))
  validated-true own previous d (c, none) = (_, false, refl, unfold is_stable_membership in refl)
  validated-true own previous d (c, some current) =
      elim (Bool-cases (is_stable_membership own previous (some current))) [
        | inl e ↦ (c, true, rw e refl, sym e)
        | inr e ↦ (
          (validated addr store address own previous d (c, some current)).0,
          false,
          rw e refl,
          sym e,
        )
      ]

  gc_with-created :
      (previous : List (ReplicaDescriptor Addr)) (stable : DotSet)
      (departed_pids : Option (List Pid)) (r : Replica T) (d : ReplicaDescriptor Addr)
      (written : ObjectStorageClient Addr S × ObjectStorage.Result Bool)
      → replica_of (
          gc_with addr store address ops serde replicas previous
            (next_marker stable departed_pids r)
            r
            (created_descriptor addr store address d written))
        ≡ run_gc ops serde previous
            (succeeded (written.1))
            ((list_membership_descriptors addr store (written.0)).1)
            (some stable, departed_pids)
            r
  gc_with-created previous stable departed_pids r d (c, ObjectStorage.failed e) = refl
  gc_with-created previous stable departed_pids r d (c, ObjectStorage.done false) = refl
  gc_with-created previous stable departed_pids r d (c, ObjectStorage.done true) =
      let listing = list_membership_descriptors addr store c in
      let (c1, valid, e, q) = validated-true r.pid previous d listing in by_valid valid e q
    where
      by_valid :
          {c1 : ObjectStorageClient Addr S} (valid : Bool)
          → validated addr store address r.pid previous d (list_membership_descriptors addr store c)
            ≡ (c1, valid)
          → valid
            ≡ is_stable_membership r.pid previous ((list_membership_descriptors addr store c).1)
          → replica_of (
              gc_with addr store address ops serde replicas previous
                (next_marker stable departed_pids r)
                r
                (c, some d))
            ≡ run_gc ops serde previous true
                ((list_membership_descriptors addr store c).1)
                (some stable, departed_pids)
                r
      by_valid false e q = unfold validate_gc_membership in rw (e, sym q) refl
      by_valid {c1} true e q =
          unfold validate_gc_membership in
          rw (e, sym q) (gc_if-true (next_marker stable departed_pids r) r c1)

  gc_round-announced :
      (found : Option DotSet × Option (List Pid)) (r : Replica T) (c : ObjectStorageClient Addr S)
      → replica_of (gc_round addr store address ops serde replicas found r c)
        ≡ run_gc ops serde c.membership_descriptors
            (succeeded ((write_membership_descriptor addr store (announced r) c).1))
            ((list_membership_descriptors addr store
              ((write_membership_descriptor addr store (announced r) c).0)).1)
            found
            r
  gc_round-announced (none, departed_pids) r c = refl
  gc_round-announced (some stable, departed_pids) r c =
      unfold change_own_gc_counter in
      gc_with-created c.membership_descriptors stable departed_pids r (announced r)
        (write_membership_descriptor addr store (announced r) c)

  refreshed-announced :
      (r : Replica T) {r1 : Replica T} → refreshed ops serde r ≡ ok r1 → announced r1 ≡ announced r
  unfolding refresh_own_version_vector Crdt.next_gc_marker Crdt.current_gc_marker
  refreshed-announced r {r1} h =
      let next : CrdtWrapper × DotSet → Outcome (Replica T × DotSet) =
        λ v. ok (record r { crdt_wrapper = v.0 }, v.1) in
      let (u, made, last) = >>=-eq-ok (refresh_own_version_vector ops serde r) (λ u. ok (u.0)) h in
      let (v, updated, paired) =
        >>=-eq-ok (Crdt.update_own_version_vector (ops.get_version_vector r.crdt) r.crdt_wrapper)
          next made in
      let pair : Replica T × DotSet = (record r { crdt_wrapper = v.0 }, v.1) in
      let same : u ≡ pair = cc in
      let e : r1 ≡ record r { crdt_wrapper = v.0 } = ground (arith, same, last) in
      let (markers, own) =
        update_own_version_vector-eq-ok (ops.get_version_vector r.crdt) r.crdt_wrapper updated in
      rw (e, markers) refl

  abbrev Agrees : Replica T → ObjectStorageClient Addr S → Type 0
  Agrees r c =
      replica_of (init_gc addr store address ops serde replicas r c)
      ≡ Replica.init_gc ops serde c.membership_descriptors
          (succeeded ((write_membership_descriptor addr store (announced r) c).1))
          ((list_membership_descriptors addr store
            ((write_membership_descriptor addr store (announced r) c).0)).1)
          r

  -- A round of garbage collection with the object storage does to the replica what the round over
  -- given answers does with the members that were cached, whether the descriptor of the next epoch
  -- was created, and the members that are listed after that.
  pub init_gc_lem :
      (r : Replica T) (c : ObjectStorageClient Addr S)
      → replica_of (init_gc addr store address ops serde replicas r c)
        ≡ Replica.init_gc ops serde c.membership_descriptors
            (succeeded ((write_membership_descriptor addr store (announced r) c).1))
            ((list_membership_descriptors addr store
              ((write_membership_descriptor addr store (announced r) c).0)).1)
            r
  init_gc_lem r c = by_refreshed (refreshed ops serde r) refl
    where
      by_frontier :
          (r1 : Replica T) (due : Bool) (o : Outcome (Option DotSet × Option (List Pid)))
          → refreshed ops serde r ≡ ok r1
          → Crdt.needs_gc r1.crdt_wrapper ≡ ok due
          → VersionMatrix.get_stable (r1.crdt_wrapper).version_matrix ≡ o
          → Agrees r c
      by_frontier r1 due panic e n g = unfold init_gc Replica.init_gc in rw (e, n, g) refl
      by_frontier r1 false (ok found) e n g = unfold init_gc Replica.init_gc in rw (e, n, g) refl
      by_frontier r1 true (ok found) e n g =
          unfold init_gc Replica.init_gc in
          rw (e, n, g, sym (refreshed-announced r e)) (gc_round-announced found r1 c)

      by_due :
          (r1 : Replica T) (o : Outcome Bool)
          → refreshed ops serde r ≡ ok r1
          → Crdt.needs_gc r1.crdt_wrapper ≡ o
          → Agrees r c
      by_due r1 panic e n = unfold init_gc Replica.init_gc in rw (e, n) refl
      by_due r1 (ok due) e n =
          by_frontier r1 due (VersionMatrix.get_stable (r1.crdt_wrapper).version_matrix) e n refl

      by_refreshed : (o : Outcome (Replica T)) → refreshed ops serde r ≡ o → Agrees r c
      by_refreshed panic e = unfold init_gc Replica.init_gc in rw e refl
      by_refreshed (ok r1) e = by_due r1 (Crdt.needs_gc r1.crdt_wrapper) e refl
