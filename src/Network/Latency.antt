-- ===== src/Network/Latency.antt =====
-- The emulation of latency in src/network.rs: `NetworkLatencyProfile`. Durations are milliseconds.
use gresse.Prelude.{
  ℕ, ◌+◌, ◌-◌, ◌≤◌, ◌≡◌, Bool, false, not, ◌||◌, if◌then◌else◌, leb, arith, Outcome, ok, ◌>>=◌,
}
use gresse.Config.{
  Env, env_millis, u64_max, gresse_replica_network_latency_ms,
  gresse_replica_network_latency_jitter_ms,
}

pub record NetworkLatencyProfile : Type 0 where
  pub base_latency : ℕ
  pub jitter : ℕ

abbrev is_zero : ℕ → Bool
is_zero n = leb n 0

-- `NetworkLatencyProfile::from_env`.
unfoldable pub from_env : Env → Outcome NetworkLatencyProfile
from_env env = do
  base_latency ← env_millis env gresse_replica_network_latency_ms 0
  jitter ← env_millis env gresse_replica_network_latency_jitter_ms 0
  ok (record { base_latency = base_latency; jitter = jitter })

unfoldable pub is_enabled : NetworkLatencyProfile → Bool
is_enabled p = not (is_zero p.base_latency) || not (is_zero p.jitter)

abbrev saturating_add_u64 : ℕ → ℕ → ℕ
saturating_add_u64 a b = if leb (a + b) u64_max then a + b else u64_max

unfoldable pub sample_delay : (ℕ → ℕ → ℕ) → NetworkLatencyProfile → ℕ
sample_delay random_range p =
    if is_zero p.jitter
    then p.base_latency
    else random_range (p.base_latency - p.jitter) (saturating_add_u64 p.base_latency p.jitter)

-- With a generator that draws within its bounds, a delay differs from the base latency by the
-- jitter at most and fits in a u64, and it is zero for a profile that is not enabled.
pub sample_delay-bounds :
    (random_range : ℕ → ℕ → ℕ) (p : NetworkLatencyProfile)
    → ((a b : ℕ) → a ≤ b → (a ≤ random_range a b) × (random_range a b ≤ b))
    → p.base_latency ≤ u64_max
    → (p.base_latency ≤ sample_delay random_range p + p.jitter)
      × (sample_delay random_range p ≤ p.base_latency + p.jitter)
      × (sample_delay random_range p ≤ u64_max)
      × (is_enabled p ≡ false → sample_delay random_range p ≡ 0)
unfolding sample_delay is_enabled
sample_delay-bounds random_range p in_range h =
    let low = p.base_latency - p.jitter in
    let high = saturating_add_u64 p.base_latency p.jitter in
    let ordered : low ≤ high = ground arith in
    let (lo, hi) = in_range low high ordered in
    (ground (arith, lo), ground (arith, hi), ground (arith, hi), λ off. ground (arith, off))
