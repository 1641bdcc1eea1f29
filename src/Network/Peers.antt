-- ===== src/Network/Peers.antt =====
-- `ReplicaNetwork` of src/network.rs: the writers of the peers, and the signals and the members that the
-- replica sends to the network manager. A channel is the list of what was put in it.
use gresse.Prelude.{
  ℕ, ◌≤◌, ◌<◌, suc, ◌≡◌, refl, Bool, true, false, Option, none, some, List, [], ◌∷◌, ◌++◌,
  if◌then◌else◌, length, zero, if_pos, Key, get_elem?, nat_key, arith,
}
use gresse.Map
use gresse.Map.{Map}
use gresse.Dots.{Pid}
use gresse.Network.{Member}

pub record ReplicaNetwork (Sender : Type 0) : Type 0 where
  pub local_pid : Pid
  pub writers : Map Pid Sender
  pub sent_members : List Member
  pub start_sender : Bool
  pub shutdown_sender : Bool
  pub started : Bool
  pub stopped : Bool

-- What `poll` meets: a message of a peer, a new writer, or the end of either channel.
pub data Arrival (Sender M : Type 0) : Type 0 where
  message : M → Arrival Sender M
  new_writer : Pid → Sender → Arrival Sender M
  messages_closed : Arrival Sender M
  writers_closed : Arrival Sender M

-- `replication_receiver.recv()`.
unfoldable pub next_message : {Sender M : Type 0} → List (Arrival Sender M) → Option M
next_message [] = none
next_message (message m ∷ arrivals) = some m
next_message (new_writer pid writer ∷ arrivals) = next_message arrivals
next_message (messages_closed ∷ arrivals) = none
next_message (writers_closed ∷ arrivals) = next_message arrivals

module _ {Sender : Type 0} where
  unfoldable pub new : Pid → ReplicaNetwork Sender
  new local_pid = record {
    local_pid = local_pid;
    writers = Map.empty;
    sent_members = [];
    start_sender = true;
    shutdown_sender = true;
    started = false;
    stopped = false;
  }

  -- The signal is sent once.
  unfoldable pub start : ReplicaNetwork Sender → ReplicaNetwork Sender
  start n = if n.start_sender then record n { start_sender = false; started = true } else n

  unfoldable pub clear_writers : ReplicaNetwork Sender → ReplicaNetwork Sender
  clear_writers n = record n { writers = Map.empty }

  unfoldable pub shutdown : ReplicaNetwork Sender → ReplicaNetwork Sender
  shutdown n =
      clear_writers
        (if n.shutdown_sender then record n { shutdown_sender = false; stopped = true } else n)

  unfoldable pub peer_count : ReplicaNetwork Sender → ℕ
  peer_count n = length n.writers

  unfoldable pub add_writer : Pid → Sender → ReplicaNetwork Sender → ReplicaNetwork Sender
  add_writer pid writer n = record n { writers = Map.insert pid writer n.writers }

  unfoldable pub remove_writer : Pid → ReplicaNetwork Sender → ReplicaNetwork Sender
  remove_writer pid n = record n { writers = Map.remove pid n.writers }

  unfoldable pub writer : Pid → ReplicaNetwork Sender → Option Sender
  writer pid n = Map.get pid n.writers

  abbrev is_nil : Map Pid Sender → Bool
  is_nil [] = true
  is_nil (_ ∷ _) = false

  -- `random_range` draws from a range without its end.
  unfoldable pub random_writer : (ℕ → ℕ) → ReplicaNetwork Sender → Option (Pid × Sender)
  random_writer random_range n =
      if is_nil n.writers then none else get_elem? n.writers (random_range (length n.writers))

  -- The loop of `poll`: writers are taken over until a message comes, or none will.
  unfoldable pub poll :
      {M : Type 0}
      → List (Arrival Sender M)
      → ReplicaNetwork Sender
      → ReplicaNetwork Sender × Option M
  poll [] n = (n, none)
  poll (message m ∷ arrivals) n = (n, some m)
  poll (new_writer pid writer ∷ arrivals) n = poll arrivals (add_writer pid writer n)
  poll (messages_closed ∷ arrivals) n = (n, none)
  poll (writers_closed ∷ arrivals) n = (n, next_message arrivals)

  -- `taken` is whether the channel has room.
  unfoldable pub notify_departure : Member → Bool → ReplicaNetwork Sender → ReplicaNetwork Sender
  notify_departure d taken n =
      let gone = remove_writer d.pid n in
      if taken then record gone { sent_members = gone.sent_members ++ d ∷ [] } else gone

module _ {K V : Type 0} ⦃key : Key K⦄ where
  -- The entry at an index is the one that its key finds.
  entry_at :
      (m : Map K V) (i : ℕ)
      → Map.IsDistinct m
      → i < length m
      → (k : K) × (v : V) × (get_elem? m i ≡ some (k, v)) × (Map.get k m ≡ some v)
  unfolding Map.get
  entry_at [] i d h = absurd (omega (arith, h))
  entry_at ((k, v) ∷ m) zero d h = (k, v, refl, if_pos (key.dec k k) refl _ _)
  entry_at ((k, v) ∷ m) (suc i) d h =
      let (j, w, e, g) = entry_at m i d.1 (omega (arith, h)) in (j, w, e, ground (arith, g, d.0))

module _ {Sender : Type 0} where
  -- With at least one peer and each pid once, a writer is drawn, and it is the one that is
  -- registered for its pid.
  pub random_writer-writer :
      (random_range : ℕ → ℕ) (n : ReplicaNetwork Sender)
      → ((a : ℕ) → 1 ≤ a → random_range a < a)
      → Map.IsDistinct n.writers
      → 1 ≤ peer_count n
      → (pid : Pid) × (s : Sender) × (random_writer random_range n ≡ some (pid, s))
        × (writer pid n ≡ some s)
  unfolding random_writer writer peer_count
  random_writer-writer random_range n in_range d h =
      let (pid, s, e, g) =
        entry_at n.writers (random_range (length n.writers)) d (in_range (length n.writers) h) in
      (pid, s, by_writers n.writers refl e, g)
    where
      by_writers :
          (m : Map Pid Sender) {o : Option (Pid × Sender)}
          → n.writers ≡ m
          → get_elem? n.writers (random_range (length n.writers)) ≡ o
          → random_writer random_range n ≡ o
      by_writers [] q e = absurd (ground (arith, q, h))
      by_writers (x ∷ m) q e = ground (arith, q, e)
