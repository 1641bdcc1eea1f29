-- ===== src/Dots.antt =====
-- src/dots.rs: dots, version vectors, the version matrix and the log of deltas.
pub mod DotSet
pub mod VersionMatrix
pub mod DotMap
use gresse.Prelude.{ℕ, zero, ℤ, negsuc, ℤ_discrete, ◌≡◌, ap, Key, ℕ_discrete, arith}

-- A replica's identity, a `u128`.
abbrev pub Pid : Type 0
Pid = ℕ

abbrev pub Counter : Type 0
Counter = ℤ

-- The pid under which the stable frontier and the epochs of garbage collection are kept.
abbrev pub stable_replica_pid : Pid
stable_replica_pid = 0

-- What a missing counter stands for: a replica's first dot has counter 0.
abbrev pub unseen : Counter
unseen = negsuc 0

-- The event number `counter` of the replica `pid`.
pub record Dot : Type 0 where
  pub pid : Pid
  pub counter : Counter

unfoldable pub dot_discrete : Discrete Dot
unfolding ℕ_discrete ℤ_discrete
dot_discrete a b = elim (ℕ_discrete a.pid b.pid) [
  | yes p ↦ elim (ℤ_discrete a.counter b.counter) [
    | yes q ↦ yes (λ i. record { pid = p i; counter = q i })
    | no n ↦ no (λ e. n (ap (λ (d : Dot). d.counter) e))
  ]
  | no n ↦ no (λ e. n (ap (λ (d : Dot). d.pid) e))
]

instance abbrev pub dot_key : Key Dot
dot_key = record { dec = dot_discrete }
