-- ===== src/Tests/Candidates.antt =====
-- A membership with the local replica, two entries of one replica, and a replica that is shut down.
use gresse.Prelude.{◌≡◌, refl, none, some, List, [], ◌∷◌, pos, ℕ_discrete, nat_key}
use mathlib.Core.List.{Memᴰ}
use gresse.Set
use gresse.Dots.{Pid}
use gresse.Replica.Descriptor.{is_shutdown}
use gresse.Network.{Member, shutdown_pids, is_skipped, network_connection_candidates}
use gresse.Network.Candidates.{IsEligible, is_skipped-IsEligible, network_connection_candidates_lem}

abbrev local : Member
local = record { pid = 1; address = 10; gc_counter = pos 4; final_counter = none }

abbrev stale : Member
stale = record { pid = 2; address = 20; gc_counter = pos 3; final_counter = none }

abbrev latest : Member
latest = record { pid = 2; address = 21; gc_counter = pos 7; final_counter = none }

abbrev stopped : Member
stopped = record { pid = 3; address = 30; gc_counter = pos 5; final_counter = some (pos 9) }

abbrev members : List Member
members = local ∷ stale ∷ latest ∷ stopped ∷ []

abbrev connected : List Pid
connected = 5 ∷ []

latest-IsEligible : IsEligible 1 connected members latest
unfolding is_skipped shutdown_pids is_shutdown Set.contains Set.insert ℕ_discrete
latest-IsEligible = is_skipped-IsEligible 1 connected members latest refl

network_connection_candidates_lem_example :
    (d : Member) × Memᴰ d (network_connection_candidates members 1 connected) × (d.pid ≡ 2)
network_connection_candidates_lem_example =
    (network_connection_candidates_lem members 1 connected).2 latest
      (Memᴰ.tail (Memᴰ.tail (Memᴰ.head refl))) latest-IsEligible
