-- ===== src/Replica/Run.antt =====
-- The run loop of src/replica.rs from the bootstrap, as a sequence of turns.
use gresse.Prelude.{
  ◌≡◌, refl, sym, Bool, true, false, Option, none, some, List, [], ◌∷◌, if◌then◌else◌, Outcome, ok,
  ◌>>=◌, >>=-eq-ok, nat_key,
}
use gresse.Set
use gresse.Dots.{Pid}
use gresse.Dots.DotSet.{DotSet}
use gresse.Dots.VersionMatrix.Rows
use gresse.DeltaGroup.{DeltaGroup, GcMarker}
use gresse.Crdt
use gresse.Crdt.{Crdt, CrdtWrapper, PersistentReplica, rebind_persistent}
use gresse.Journal.{DiskJournal, Serde, append_snapshot, returned, recover}
use gresse.Journal.Recovery.{IsFaithful, perform_all}
use gresse.Network.{Member}
use gresse.Replica.{
  Replica, SendResult, start, bootstrap_from_object_storage, handle_mutation, handle_delta,
  handle_version_vector, pull_delta, init_gc, refreshed,
}
use gresse.Replica.Durable.{IsDurable, recover-IsDurable}
use gresse.Replica.Follows.{
  Follows, Spared, Spared-right, kept, unchanged, then_follows, handle_mutation-Follows,
  refreshed-Follows,
}
use gresse.Replica.Handlers.{
  same-Follows, handle_delta-Follows, handle_version_vector-Follows, pull_delta-Follows,
  init_gc-Follows,
}
use gresse.Replica.Polled.{
  discover, apply_membership_poll, discover-Follows, apply_membership_poll-Follows,
}

-- What the branches of the run loop, and the handler of client mutations, find when their turn comes.
pub data Turn (T D E M : Type 0) : Type 0 where
  -- A client's mutation, and the message that it sends to the loop.
  mutation : M → Turn T D E M
  refresh : Turn T D E M
  -- A writer that the network hands over while it is polled, and the two messages of a peer, the
  -- second with what sending the answer gives.
  connected : Pid → Turn T D E M
  delta : DeltaGroup D E → GcMarker → Turn T D E M
  vector : Pid → DotSet → SendResult → Turn T D E M
  -- The tick of the synchronisation, with the peer that is drawn.
  pull : Option Pid → SendResult → Turn T D E M
  -- The tick of the garbage collection, with what the object storage answers.
  gc_tick : List Member → Bool → Option (List Member) → Turn T D E M
  -- The start of a membership poll, and its result with the payloads that can be read.
  poll_tick : Turn T D E M
  polled : Option (List Member) → (Member → Option T) → Turn T D E M

module _ {T D E M Value : Type 0} (ops : Crdt T D E M) (serde : Serde T D E M Value) where
  unfoldable pub take_turn : Turn T D E M → Replica T → Outcome (Replica T)
  take_turn (mutation m) r = handle_mutation ops serde m r
  take_turn refresh r = refreshed ops serde r
  take_turn (connected pid) r = ok (record r { writers = Set.insert pid r.writers })
  take_turn (delta group marker) r = handle_delta ops serde group marker r
  take_turn (vector pid version_vector sending) r = do
    u ← handle_version_vector ops serde pid version_vector sending r
    ok (u.0)
  take_turn (pull chosen sending) r = do u ← pull_delta ops serde chosen sending r; ok (u.0)
  take_turn (gc_tick previous created current) r = init_gc ops serde previous created current r
  take_turn poll_tick r = ok r
  take_turn (polled members payloads) r = apply_membership_poll ops serde members payloads r

  -- The turns that are taken before the loop ends.
  unfoldable pub take_turns : List (Turn T D E M) → Replica T → Outcome (Replica T)
  take_turns [] r = ok r
  take_turns (turn ∷ turns) r = do r' ← take_turn turn r; take_turns turns r'

  -- The members that are cached are discovered first. The shutdown, which can end the loop, drops the
  -- writers; what it publishes is in Replica.Storage.
  unfoldable pub run : List Member → List (Turn T D E M) → Bool → Replica T → Outcome (Replica T)
  run initial_members turns shutdown r = do
    r' ← take_turns turns (discover initial_members r)
    ok (if shutdown then record r' { writers = [] } else r')

  -- A handler that also gives a message.
  with_message :
      {r r' : Replica T} {A : Type 0} (o : Outcome (Replica T × A))
      → ((u : Replica T × A) → o ≡ ok u → Follows ops serde r (u.0))
      → (o >>= λ u. ok (u.0)) ≡ ok r'
      → Follows ops serde r r'
  with_message {r} {r'} o follows h =
      let (u, made, last) = >>=-eq-ok o (λ u. ok (u.0)) h in
      let e : r' ≡ u.0 = cc in rw e (follows u made)

  take_turn-Follows :
      (turn : Turn T D E M) (r : Replica T) {r' : Replica T}
      → take_turn turn r ≡ ok r'
      → Follows ops serde r r'
  unfolding take_turn
  take_turn-Follows (mutation m) r h = handle_mutation-Follows ops serde m r h
  take_turn-Follows refresh r h = refreshed-Follows ops serde r h
  take_turn-Follows (connected pid) r {r'} h =
      let e : r' ≡ record r { writers = Set.insert pid r.writers } = cc in
      rw e (kept ops serde r _ refl refl refl refl)
  take_turn-Follows (delta group marker) r h = handle_delta-Follows ops serde group marker r h
  take_turn-Follows (vector pid version_vector sending) r h =
      with_message _
        (λ u made. handle_version_vector-Follows ops serde pid version_vector sending r made) h
  take_turn-Follows (pull chosen sending) r h =
      with_message _ (λ u made. pull_delta-Follows ops serde chosen sending r made) h
  take_turn-Follows (gc_tick previous created current) r h =
      init_gc-Follows ops serde previous created current r h
  take_turn-Follows poll_tick r h = same-Follows ops serde h
  take_turn-Follows (polled members payloads) r h =
      apply_membership_poll-Follows ops serde members payloads r h

  take_turns-Follows :
      (turns : List (Turn T D E M)) (r : Replica T) {r' : Replica T}
      → take_turns turns r ≡ ok r'
      → Follows ops serde r r'
  unfolding take_turns
  take_turns-Follows [] r h = same-Follows ops serde h
  take_turns-Follows (turn ∷ turns) r h =
      let (r1, taken, rest) = >>=-eq-ok (take_turn turn r) (take_turns turns) h in
      then_follows ops serde (take_turn-Follows turn r taken) (take_turns-Follows turns r1 rest)

  run-Follows :
      (initial_members : List Member) (turns : List (Turn T D E M)) (shutdown : Bool)
      (r : Replica T) {r' : Replica T}
      → run initial_members turns shutdown r ≡ ok r'
      → Follows ops serde r r'
  unfolding run
  run-Follows initial_members turns shutdown r {r'} h =
      let last : Replica T → Replica T = λ s. if shutdown then record s { writers = [] } else s in
      let (s, taken, made) =
        >>=-eq-ok (take_turns turns (discover initial_members r)) (λ s. ok (last s)) h in
      let e : r' ≡ last s = cc in
      rw e (
        then_follows ops serde (discover-Follows ops serde initial_members r) (
          then_follows ops serde (take_turns-Follows turns (discover initial_members r) taken)
            (ended shutdown s)))
    where
      ended :
          (shutdown : Bool) (s : Replica T)
          → Follows ops serde s (if shutdown then record s { writers = [] } else s)
      ended true s = kept ops serde s _ refl refl refl refl
      ended false s = unchanged ops serde s

  snapshot-IsDurable :
      (r : Replica T) (j : DiskJournal)
      → j.has_paths ≡ true
      → Rows.HasOwnRow (r.crdt_wrapper).version_matrix
      → r.durability_journal
        ≡ append_snapshot ops serde
            (record { local_state = r.crdt; crdt_wrapper = r.crdt_wrapper })
            j
      → IsDurable ops serde r
  unfolding perform_all
  snapshot-IsDurable r j enabled row e = record {
    start = j;
    base = record { local_state = r.crdt; crdt_wrapper = r.crdt_wrapper };
    entries = [];
    back = record { local_state = r.crdt; crdt_wrapper = r.crdt_wrapper };
    enabled = enabled;
    logged = e;
    performed = refl;
    same_state = refl;
    same_markers = refl;
    same_pid = refl;
    own_row = row;
  }

  -- A replica that starts without a journal, from the object storage or from nothing.
  abbrev pub booted : Pid → T → DiskJournal → Option (PersistentReplica T) → Replica T
  booted requested crdt journal found =
      bootstrap_from_object_storage ops serde found (start ops serde requested crdt journal none)

  booted-IsDurable :
      (requested : Pid) (crdt : T) (journal : DiskJournal) (found : Option (PersistentReplica T))
      → journal.has_paths ≡ true
      → IsDurable ops serde (booted requested crdt journal found)
  unfolding bootstrap_from_object_storage start rebind_persistent Crdt.rebind_own_pid
  booted-IsDurable requested crdt journal none enabled =
      snapshot-IsDurable _ journal enabled (Rows.rebind-HasOwnRow _ _ _) refl
  booted-IsDurable requested crdt journal (some found) enabled =
      snapshot-IsDurable _ journal enabled (Rows.rebind-HasOwnRow _ _ _) refl

  -- For a serializer that reads back what it writes and an enabled journal, after any run of a
  -- replica that starts without a journal to recover and keeps no marker that lists it as
  -- departed, recovery of the journal gives back the data of the replica, its markers and its pid;
  -- a run is any sequence of turns of the branches of the run loop, with any messages and any
  -- answers of the object storage, that does not panic.
  pub recover-run :
      IsFaithful ops serde
      → (requested : Pid) (crdt : T) (journal : DiskJournal) (found : Option (PersistentReplica T))
        (initial_members : List Member) (turns : List (Turn T D E M)) (shutdown : Bool)
        {r : Replica T}
      → journal.has_paths ≡ true
      → run initial_members turns shutdown (booted requested crdt journal found) ≡ ok r
      → Spared (Crdt.own_pid r.crdt_wrapper) (r.crdt_wrapper).gc_markers
      → (back : PersistentReplica T) × (recover ops serde r.durability_journal
          ≡ returned (r.durability_journal, some back))
        × (back.local_state ≡ r.crdt)
        × ((back.crdt_wrapper).gc_markers ≡ (r.crdt_wrapper).gc_markers)
        × (Crdt.own_pid back.crdt_wrapper ≡ Crdt.own_pid r.crdt_wrapper)
  recover-run faithful requested crdt journal found initial_members turns shutdown {r} enabled h s =
      let first = booted requested crdt journal found in
      let f = run-Follows initial_members turns shutdown first h in
      let s' : Spared (Crdt.own_pid first.crdt_wrapper) f.taken =
        Spared-right (Crdt.own_pid first.crdt_wrapper) (first.crdt_wrapper).gc_markers f.taken
          (rw (sym f.own, sym f.markers) s) in
      recover-IsDurable ops serde r faithful
        (f.durable s' (booted-IsDurable requested crdt journal found enabled))
