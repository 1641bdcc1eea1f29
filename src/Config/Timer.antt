-- ===== src/Config/Timer.antt =====
-- The timer of garbage collection in src/replica_helpers.rs: `reschedule_gc` draws the next interval.
use gresse.Prelude.{ℕ, ◌+◌, ◌-◌, ◌/◌, ◌^◌, ◌≤◌, ◌≡◌, if◌then◌else◌, leb, arith}
use gresse.Config.{u64_max}

abbrev min_ℕ : ℕ → ℕ → ℕ
min_ℕ a b = if leb a b then a else b

abbrev max_ℕ : ℕ → ℕ → ℕ
max_ℕ a b = if leb a b then b else a

abbrev pub u128_max : ℕ
u128_max = 2 ^ 128 - 1

-- `saturating_add`, under the greatest value of the type.
abbrev saturating_add : ℕ → ℕ → ℕ → ℕ
saturating_add max a b = min_ℕ (a + b) max

-- `base_nanos / replica_count`, on a `usize` of 64 bits.
unfoldable pub jitter_nanos : ℕ → ℕ → ℕ
jitter_nanos base_nanos peer_count = base_nanos / saturating_add u64_max peer_count 1

abbrev lower_of : ℕ → ℕ → ℕ
lower_of base jitter = max_ℕ (base - jitter) 1

abbrev upper_of : ℕ → ℕ → ℕ
upper_of base jitter = max_ℕ (saturating_add u128_max base jitter) (lower_of base jitter + 1)

unfoldable pub lower_bound : ℕ → ℕ → ℕ
lower_bound base_nanos peer_count = lower_of base_nanos (jitter_nanos base_nanos peer_count)

unfoldable pub upper_bound : ℕ → ℕ → ℕ
upper_bound base_nanos peer_count = upper_of base_nanos (jitter_nanos base_nanos peer_count)

-- The next period in nanoseconds; `random_range` draws between two bounds.
unfoldable pub gc_period : (ℕ → ℕ → ℕ) → ℕ → ℕ → ℕ
gc_period random_range base_nanos peer_count =
    let drawn =
      random_range (lower_bound base_nanos peer_count) (upper_bound base_nanos peer_count) in
    if leb base_nanos 0 then 1 else min_ℕ drawn u64_max

drawn-bounds :
    (base jitter drawn : ℕ)
    → 1 ≤ base
    → base ≤ u64_max
    → jitter ≤ base
    → lower_of base jitter ≤ drawn
    → drawn ≤ upper_of base jitter
    → (1 ≤ min_ℕ drawn u64_max)
      × (min_ℕ drawn u64_max ≤ u64_max)
      × (base ≤ min_ℕ drawn u64_max + jitter)
      × (min_ℕ drawn u64_max ≤ base + jitter + 1)
drawn-bounds base jitter drawn h k j lo hi =
    (ground (arith), ground (arith), ground (arith), ground (arith))

-- With a generator that draws within its bounds, a base period of 1 to u64::MAX nanoseconds and
-- fewer than u64::MAX peers, the period of garbage collection that is drawn is never zero, fits in
-- a u64 and differs from the base period by at most that period divided by the number of replicas,
-- and a nanosecond.
pub gc_period-bounds :
    (random_range : ℕ → ℕ → ℕ) (base_nanos peer_count : ℕ)
    → ((a b : ℕ) → a ≤ b → (a ≤ random_range a b) × (random_range a b ≤ b))
    → 1 ≤ base_nanos
    → base_nanos ≤ u64_max
    → peer_count + 1 ≤ u64_max
    → (1 ≤ gc_period random_range base_nanos peer_count)
      × (gc_period random_range base_nanos peer_count ≤ u64_max)
      × (base_nanos ≤ gc_period random_range base_nanos peer_count + base_nanos / (peer_count + 1))
      × (gc_period random_range base_nanos peer_count
          ≤ base_nanos + base_nanos / (peer_count + 1) + 1)
unfolding gc_period lower_bound upper_bound jitter_nanos
gc_period-bounds random_range base_nanos peer_count in_range h k p =
    let jitter = base_nanos / (peer_count + 1) in
    let j : jitter ≤ base_nanos = omega arith in
    let q : jitter_nanos base_nanos peer_count ≡ jitter = ground arith in
    let ordered : lower_of base_nanos jitter ≤ upper_of base_nanos jitter = ground arith in
    let drawn = random_range (lower_of base_nanos jitter) (upper_of base_nanos jitter) in
    let (lo, hi) = in_range (lower_of base_nanos jitter) (upper_of base_nanos jitter) ordered in
    let r : gc_period random_range base_nanos peer_count ≡ min_ℕ drawn u64_max =
      rw (q, gc_period) (ground arith) in
    rw r (drawn-bounds base_nanos jitter drawn h k j lo hi)

-- The period is never zero, whatever the base period is.
pub gc_period-pos :
    (random_range : ℕ → ℕ → ℕ) (base_nanos peer_count : ℕ)
    → ((a b : ℕ) → a ≤ b → (a ≤ random_range a b) × (random_range a b ≤ b))
    → 1 ≤ gc_period random_range base_nanos peer_count
unfolding gc_period lower_bound upper_bound
gc_period-pos random_range base_nanos peer_count in_range =
    let jitter = jitter_nanos base_nanos peer_count in
    let ordered : lower_of base_nanos jitter ≤ upper_of base_nanos jitter = ground arith in
    let drawn = random_range (lower_of base_nanos jitter) (upper_of base_nanos jitter) in
    let (lo, _) = in_range (lower_of base_nanos jitter) (upper_of base_nanos jitter) ordered in
    let low : 1 ≤ lower_of base_nanos jitter = ground arith in
    let positive : 1 ≤ drawn = omega (arith, lo, low) in ground (arith, positive)
