-- ===== src/ObjectStorage/Poll.antt =====
-- The background listing of src/object_storage.rs: `start_membership_poll` and what follows it, and that
-- never two of them are under way.
use gresse.Prelude.{
  ℕ, suc, ◌+◌, ◌-◌, ◌≤◌, Bool, true, false, Option, none, some, List, [], ◌∷◌, ◌++◌, if◌then◌else◌,
  length, length-append, ◌≡◌, refl, arith, Bool-cases, inl, inr,
}
use gresse.Replica.Descriptor.{ReplicaDescriptor}
use gresse.ObjectStorage.{ObjectStorageClient, Result}

abbrev one_if : Bool → ℕ
one_if true = 1
one_if false = 0

module _ {Addr S : Type 0} where
  -- A listing that was started and not consumed bars the next one.
  unfoldable pub start_membership_poll : ObjectStorageClient Addr S → ObjectStorageClient Addr S
  start_membership_poll c = if c.membership_poll_in_flight then c else record c {
    membership_poll_in_flight = true;
    membership_poll_task = true;
    running_polls = suc c.running_polls;
  }

  -- The end of a spawned task: `found` is what `fetch_membership_descriptors` came to.
  unfoldable pub send_membership_poll :
      Result (List (ReplicaDescriptor Addr))
      → ObjectStorageClient Addr S
      → ObjectStorageClient Addr S
  send_membership_poll found c = record c {
    running_polls = c.running_polls - 1;
    membership_poll_results = c.membership_poll_results ++ found ∷ [];
  }

  -- The handle is dropped; a task that was running would go on.
  unfoldable pub finish_membership_poll : ObjectStorageClient Addr S → ObjectStorageClient Addr S
  finish_membership_poll c = record c {
    membership_poll_in_flight = false;
    membership_poll_task = false;
  }

  -- The task of the handle is stopped, if it is running still.
  unfoldable pub abort_membership_poll : ObjectStorageClient Addr S → ObjectStorageClient Addr S
  abort_membership_poll c = record c {
    running_polls = if c.membership_poll_task then c.running_polls - 1 else c.running_polls;
    membership_poll_task = false;
    membership_poll_in_flight = false;
  }

  -- The next result, where there is one.
  unfoldable pub recv_membership_poll :
      ObjectStorageClient Addr S
      → Option (ObjectStorageClient Addr S × Result (List (ReplicaDescriptor Addr)))
  recv_membership_poll c = elim c.membership_poll_results [
    | [] ↦ none
    | found ∷ rest ↦ some (record c { membership_poll_results = rest }, found)
  ]

  -- What happens to the polls of a running replica: the timer starts one, a task that is running sends
  -- its result, and the run loop takes a result and finishes the poll.
  pub data Step : ObjectStorageClient Addr S → ObjectStorageClient Addr S → Type 0 where
    started : (c : ObjectStorageClient Addr S) → Step c (start_membership_poll c)
    sent :
        (c : ObjectStorageClient Addr S) (found : Result (List (ReplicaDescriptor Addr)))
        → 1 ≤ c.running_polls
        → Step c (send_membership_poll found c)
    consumed :
        (c c' : ObjectStorageClient Addr S) (found : Result (List (ReplicaDescriptor Addr)))
        → recv_membership_poll c ≡ some (c', found)
        → Step c (finish_membership_poll c')

  pub data Steps : ObjectStorageClient Addr S → ObjectStorageClient Addr S → Type 0 where
    here : {c : ObjectStorageClient Addr S} → Steps c c
    step : {c d e : ObjectStorageClient Addr S} → Step c d → Steps d e → Steps c e

  -- The listings that are running, and those whose result was not taken.
  unfoldable pub outstanding : ObjectStorageClient Addr S → ℕ
  outstanding c = c.running_polls + length c.membership_poll_results

  -- Every outstanding listing is announced by the flag.
  abbrev IsAnnounced : ObjectStorageClient Addr S → Type 0
  IsAnnounced c = outstanding c ≤ one_if c.membership_poll_in_flight

  outstanding-start :
      (c : ObjectStorageClient Addr S) → IsAnnounced c → IsAnnounced (start_membership_poll c)
  unfolding outstanding start_membership_poll
  outstanding-start c h = elim (Bool-cases c.membership_poll_in_flight) [
    | inl e ↦ rw (e, start_membership_poll) (let k : outstanding c ≤ 1 = ground (arith, h) in k)
    | inr e ↦ rw (e, start_membership_poll) (ground arith)
  ]

  outstanding-recv :
      (c c' : ObjectStorageClient Addr S) (found : Result (List (ReplicaDescriptor Addr)))
      → recv_membership_poll c ≡ some (c', found)
      → suc (outstanding c') ≡ outstanding c
  unfolding outstanding recv_membership_poll
  outstanding-recv c c' found h = by_results c.membership_poll_results refl
    where
      by_results :
          (results : List (Result (List (ReplicaDescriptor Addr))))
          → c.membership_poll_results ≡ results
          → suc (outstanding c') ≡ outstanding c
      by_results [] e = ground (arith, h)
      by_results (r ∷ rest) e = ground (arith, h)

  Step-IsAnnounced : {c d : ObjectStorageClient Addr S} → Step c d → IsAnnounced c → IsAnnounced d
  unfolding outstanding send_membership_poll finish_membership_poll
  Step-IsAnnounced (started c) h = outstanding-start c h
  Step-IsAnnounced (sent c found r) h =
      ground (arith, length-append c.membership_poll_results (found ∷ []))
  Step-IsAnnounced (consumed c c' found r) h = ground (arith, outstanding-recv c c' found r)

  Steps-IsAnnounced : {c d : ObjectStorageClient Addr S} → Steps c d → IsAnnounced c → IsAnnounced d
  Steps-IsAnnounced here h = h
  Steps-IsAnnounced (step first rest) h = Steps-IsAnnounced rest (Step-IsAnnounced first h)

  -- From a client without an outstanding listing, at most one listing is outstanding after any
  -- steps of the timer, the tasks and the run loop.
  pub outstanding-steps :
      {c d : ObjectStorageClient Addr S} → Steps c d → outstanding c ≡ 0 → outstanding d ≤ 1
  outstanding-steps {c} {d} steps h =
      let bound : IsAnnounced d = Steps-IsAnnounced steps (ground arith) in ground (arith, bound)
