-- ===== src/Replica/Descriptor.antt =====
-- `ReplicaDescriptor` of src/replica_helpers.rs, and what src/replica.rs reads of a membership.
pub mod Display
use gresse.Prelude.{
  Bool, true, false, Option, none, some, List, [], ◌∷◌, ite, if◌then◌else◌, leb_ℤ, max_ℤ,
  ℕ_discrete, nat_key,
}
use gresse.Map
use gresse.Map.{Map}
use gresse.Dots.{Pid, Counter}

pub record ReplicaDescriptor (Addr : Type 0) : Type 0 where
  pub pid : Pid
  pub address : Addr
  pub gc_counter : Counter
  pub final_counter : Option Counter

abbrev pub at_most : Counter → Option Counter → Bool
at_most c none = false
at_most c (some old) = leb_ℤ c old

-- `into_iter().all(..)`.
unfoldable pub all_known : Pid → Map Pid Counter → Map Pid Counter → Bool
all_known own previous [] = true
all_known own previous ((pid, c) ∷ rest) =
    let others = all_known own previous rest in
    if ite (ℕ_discrete pid own) true (at_most c (Map.get pid previous)) then others else false

module _ {Addr : Type 0} where
  unfoldable pub is_shutdown : ReplicaDescriptor Addr → Bool
  is_shutdown d = elim d.final_counter [ none ↦ false | some _ ↦ true ]

  -- `membership_gc_counters_by_pid`, with the map that the loop has built so far.
  unfoldable pub counters_of : List (ReplicaDescriptor Addr) → Map Pid Counter → Map Pid Counter
  counters_of [] counters = counters
  counters_of (d ∷ ds) counters =
      counters_of ds (Map.upsert d.pid (λ c. max_ℤ c d.gc_counter) d.gc_counter counters)

  unfoldable pub membership_gc_counters_by_pid : List (ReplicaDescriptor Addr) → Map Pid Counter
  membership_gc_counters_by_pid members = counters_of members Map.empty

  -- `validate_gc_membership`: no other replica has joined or started a round.
  unfoldable pub is_stable_membership :
      Pid → List (ReplicaDescriptor Addr) → Option (List (ReplicaDescriptor Addr)) → Bool
  is_stable_membership own previous none = false
  is_stable_membership own previous (some current) =
      all_known own (membership_gc_counters_by_pid previous) (membership_gc_counters_by_pid current)
