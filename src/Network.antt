-- ===== src/Network.antt =====
-- src/network.rs: which members a replica connects to, and the bookkeeping of its connections. An
-- address of a socket is a number, in the order of `SocketAddr`; times are seconds; the sockets and
-- the tasks that serve them are not part of the model.
pub mod Liveness
pub mod Latency
pub mod Newest
pub mod Candidates
pub mod Wire
pub mod Peers
use gresse.Prelude.{
  ℕ, ◌+◌, ◌*◌, ◌^◌, ℤ, Bool, true, false, not, ◌||◌, Option, none, some, List, [], ◌∷◌, ite,
  if◌then◌else◌, leb, ltb, ltb_ℤ, max_ℤ, ℕ_discrete, nat_key, sort_by, Key, filter,
}
use gresse.Map
use gresse.Map.{Map}
use gresse.Set
use gresse.Dots.{Pid, Counter}
use gresse.Crdt.{CrdtWrapper, observe_active_replica}
use gresse.Replica.Descriptor.{ReplicaDescriptor, is_shutdown}

abbrev pub Addr : Type 0
Addr = ℕ

abbrev pub Member : Type 0
Member = ReplicaDescriptor Addr

-- `filter(is_shutdown).map(pid).collect::<HashSet<_>>()`.
unfoldable pub shutdown_pids : List Member → List Pid
shutdown_pids [] = []
shutdown_pids (d ∷ members) =
    let rest = shutdown_pids members in if is_shutdown d then Set.insert d.pid rest else rest

-- The `continue` of both loops, for a list of pids that are passed over.
unfoldable pub is_skipped : Pid → List Pid → List Pid → Member → Bool
is_skipped local_pid shut connected d =
    ite (ℕ_discrete d.pid local_pid) true
      (is_shutdown d || Set.contains d.pid shut || Set.contains d.pid connected)

abbrev newer : Member → Member → Member
newer d current = if ltb_ℤ current.gc_counter d.gc_counter then d else current

-- The loop of `network_connection_candidates`.
unfoldable pub newest_by_pid : (Member → Bool) → List Member → Map Pid Member → Map Pid Member
newest_by_pid skipped [] newest = newest
newest_by_pid skipped (d ∷ members) newest =
    newest_by_pid skipped members
      (if skipped d then newest else Map.upsert d.pid (newer d) d newest)

abbrev le_pid : Member → Member → Bool
le_pid a b = leb a.pid b.pid

unfoldable pub network_connection_candidates : List Member → Pid → List Pid → List Member
network_connection_candidates members local_pid connected = sort_by le_pid (
    Map.values
      (newest_by_pid (is_skipped local_pid (shutdown_pids members) connected) members Map.empty))

-- The loops of `enqueue_members`.
unfoldable pub discovered : (Member → Bool) → List Member → Map Pid Counter → Map Pid Counter
discovered skipped [] counters = counters
discovered skipped (d ∷ members) counters = discovered skipped members (
    if skipped d
    then counters
    else Map.upsert d.pid (λ c. max_ℤ c d.gc_counter) d.gc_counter counters)

unfoldable pub observe_all : Map Pid Counter → CrdtWrapper → CrdtWrapper
observe_all [] w = w
observe_all ((pid, c) ∷ rest) w = observe_all rest (observe_active_replica pid c w)

-- The wrapper, and the members that are handed to the network manager.
unfoldable pub enqueue_members :
    List Member → Pid → List Pid → CrdtWrapper → CrdtWrapper × List Member
enqueue_members members local_pid writers w = (
  observe_all (discovered (is_skipped local_pid (shutdown_pids members) []) members Map.empty) w,
  network_connection_candidates members local_pid writers,
)

pub record NetworkManager : Type 0 where
  pub pid : Pid
  pub address : Addr
  pub dead_members : List Pid
  pub connected_members : List Pid
  pub connecting_members : List Pid
  pub connection_retry_at : Map Pid ℕ
  pub connection_failures : Map Pid ℕ

unfoldable pub new : Pid → Addr → NetworkManager
new pid address = record {
  pid = pid;
  address = address;
  dead_members = [];
  connected_members = [];
  connecting_members = [];
  connection_retry_at = Map.empty;
  connection_failures = Map.empty;
}

abbrev is_waiting : ℕ → Option ℕ → Bool
is_waiting now none = false
is_waiting now (some retry_at) = ltb now retry_at

abbrev retire : Pid → NetworkManager → NetworkManager
retire p n = record n {
  dead_members = Set.insert p n.dead_members;
  connecting_members = Set.remove p n.connecting_members;
  connected_members = Set.remove p n.connected_members;
  connection_retry_at = Map.remove p n.connection_retry_at;
  connection_failures = Map.remove p n.connection_failures;
}

-- The guard of `handle_new_member` on a member that is alive.
unfoldable pub is_passed_over : ℕ → Member → NetworkManager → Bool
is_passed_over now m n = ite (ℕ_discrete m.pid n.pid) true (
    leb m.address n.address
    || Set.contains m.pid n.dead_members
    || Set.contains m.pid n.connected_members
    || Set.contains m.pid n.connecting_members
    || is_waiting now (Map.get m.pid n.connection_retry_at))

-- The manager, and whether a connection attempt was started.
unfoldable pub handle_new_member : ℕ → Member → NetworkManager → NetworkManager × Bool
handle_new_member now m n =
    if is_shutdown m
    then (retire m.pid n, false)
    else if is_passed_over now m n
    then (n, false)
    else (record n { connecting_members = Set.insert m.pid n.connecting_members }, true)

-- Whether the channel to the replica took the writer.
pub data ConnectionResult : Type 0 where
  established : Option Pid → Pid → Bool → ConnectionResult
  failed : Option Pid → ConnectionResult

abbrev min_ℕ : ℕ → ℕ → ℕ
min_ℕ a b = if leb a b then a else b

abbrev u32_max : ℕ
u32_max = 4294967295

abbrev failures_of : Option ℕ → ℕ
failures_of none = 1
failures_of (some f) = min_ℕ (f + 1) u32_max

abbrev max_backoff : ℕ
max_backoff = 30

-- `2 ^ min(failures, 5)` seconds, at most 30.
unfoldable pub backoff : ℕ → ℕ
backoff failures = min_ℕ (2 ^ min_ℕ failures 5) max_backoff

unfoldable pub handle_failure : ℕ → Pid → NetworkManager → NetworkManager
handle_failure now p n =
    let failures = failures_of (Map.get p n.connection_failures) in
    record n {
      connecting_members = Set.remove p n.connecting_members;
      connection_failures = Map.insert p failures n.connection_failures;
      connection_retry_at = Map.insert p (now + backoff failures) n.connection_retry_at;
    }

abbrev forget_attempt : Pid → NetworkManager → NetworkManager
forget_attempt p n = record n {
  connecting_members = Set.remove p n.connecting_members;
  connection_retry_at = Map.remove p n.connection_retry_at;
  connection_failures = Map.remove p n.connection_failures;
}

-- A peer that is dead or connected already is turned away; one that the replica's channel does not
-- take is not counted as connected.
unfoldable pub register : Pid → Bool → NetworkManager → NetworkManager
register peer taken n =
    if Set.contains peer n.dead_members || Set.contains peer n.connected_members
    then n
    else if taken
    then record n { connected_members = Set.insert peer n.connected_members }
    else record n { connected_members = Set.remove peer (Set.insert peer n.connected_members) }

unfoldable pub handle_connection_result : ℕ → ConnectionResult → NetworkManager → NetworkManager
handle_connection_result now (failed none) n = n
handle_connection_result now (failed (some p)) n = handle_failure now p n
handle_connection_result now (established none peer taken) n = register peer taken n
handle_connection_result now (established (some p) peer taken) n =
    let forgotten = forget_attempt p n in
    ite (ℕ_discrete peer p) (register peer taken forgotten) forgotten

-- What the loop of `run` reacts to.
pub data Event : Type 0 where
  member : ℕ → Member → Event
  result : ℕ → ConnectionResult → Event

unfoldable pub handle : Event → NetworkManager → NetworkManager
handle (member now m) n = (handle_new_member now m n).0
handle (result now r) n = handle_connection_result now r n

unfoldable pub run : List Event → NetworkManager → NetworkManager
run [] n = n
run (e ∷ events) n = run events (handle e n)
