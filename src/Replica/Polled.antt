-- ===== src/Replica/Polled.antt =====
-- The members that the object storage lists, in src/replica.rs: what a replica learns of them.
use gresse.Prelude.{◌≡◌, refl, ◌∙◌, Option, none, some, List, [], ◌∷◌, Outcome, ok, nat_key, arith}
use gresse.Map.{Map}
use gresse.Dots.{Pid, Counter}
use gresse.Dots.VersionMatrix
use gresse.Crdt
use gresse.Crdt.{Crdt, CrdtWrapper, PersistentReplica, rebind_persistent}
use gresse.Journal.{Serde}
use gresse.Network.{Member, enqueue_members, observe_all}
use gresse.Replica.{Replica, handle_departures}
use gresse.Replica.Follows.{Follows, kept, then_follows}
use gresse.Replica.Handlers.{same-Follows, handle_departures-Follows}

own_pid-observe_active_replica :
    (pid : Pid) (c : Counter) (w : CrdtWrapper)
    → (Crdt.own_pid (Crdt.observe_active_replica pid c w) ≡ Crdt.own_pid w)
      × ((Crdt.observe_active_replica pid c w).gc_markers ≡ w.gc_markers)
unfolding Crdt.observe_active_replica Crdt.own_pid VersionMatrix.insert_pid
own_pid-observe_active_replica pid c w = (ground arith, ground arith)

own_pid-observe_all :
    (counters : Map Pid Counter) (w : CrdtWrapper)
    → (Crdt.own_pid (observe_all counters w) ≡ Crdt.own_pid w)
      × ((observe_all counters w).gc_markers ≡ w.gc_markers)
unfolding observe_all
own_pid-observe_all [] w = (refl, refl)
own_pid-observe_all ((pid, c) ∷ rest) w =
    let (o, m) = own_pid-observe_all rest (Crdt.observe_active_replica pid c w) in
    let (o', m') = own_pid-observe_active_replica pid c w in (o ∙ o', m ∙ m')

module _ {T : Type 0} where
  -- `enqueue_members`, for the wrapper of the replica.
  unfoldable pub discover : List Member → Replica T → Replica T
  discover members r = record r {
    crdt_wrapper = (enqueue_members members r.pid r.writers r.crdt_wrapper).0;
  }

module _ {T D E M Value : Type 0} (ops : Crdt T D E M) (serde : Serde T D E M Value) where
  -- What `apply_membership_poll` does to the replica. The flag of the poll and the cached members are
  -- the client's, and the period of the garbage collection is the configuration's.
  unfoldable pub apply_membership_poll :
      Option (List Member) → (Member → Option T) → Replica T → Outcome (Replica T)
  apply_membership_poll none payloads r = ok r
  apply_membership_poll (some members) payloads r =
      handle_departures ops serde members payloads (discover members r)

  pub discover-Follows :
      (members : List Member) (r : Replica T) → Follows ops serde r (discover members r)
  unfolding discover enqueue_members
  discover-Follows members r =
      let (own, markers) = own_pid-observe_all _ r.crdt_wrapper in
      kept ops serde r _ refl refl markers own

  pub apply_membership_poll-Follows :
      (members : Option (List Member)) (payloads : Member → Option T) (r : Replica T)
      {r' : Replica T}
      → apply_membership_poll members payloads r ≡ ok r'
      → Follows ops serde r r'
  unfolding apply_membership_poll
  apply_membership_poll-Follows none payloads r h = same-Follows ops serde h
  apply_membership_poll-Follows (some members) payloads r h =
      then_follows ops serde (discover-Follows members r)
        (handle_departures-Follows ops serde members payloads (discover members r) h)
