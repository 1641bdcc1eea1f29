-- ===== src/Config/Runtime.antt =====
-- `ReplicaRuntimeConfig` of src/replica_helpers.rs: the timers of the run loop. `interval_at` of tokio, which
-- panics on a period of zero, is a parameter; periods are nanoseconds.
use gresse.Prelude.{ℕ, ◌*◌, ◌≤◌, ◌≡◌, refl, Outcome, ok, panic, ◌>>=◌}
use gresse.Config.{ServerAddr, ReplicaConfig}
use gresse.Config.Timer.{gc_period, gc_period-pos}

pub record ReplicaRuntimeConfig (Ip Timer : Type 0) : Type 0 where
  pub address : ServerAddr Ip
  pub advertised_address : ServerAddr Ip
  pub sync_interval : ℕ
  pub gc_base_interval : ℕ
  pub gc_interval : Timer
  pub membership_poll_interval : Timer

abbrev pub nanos : ℕ → ℕ
nanos millis = millis * 1000000

-- The documented behaviour of the timers of tokio: a period of zero panics.
pub record IsTimer {Timer : Type 0} (interval : ℕ → Outcome Timer) : Type 0 where
  pub zero_panics : interval 0 ≡ panic
  pub made : (n : ℕ) → 1 ≤ n → (t : Timer) × (interval n ≡ ok t)

module _ {Ip Timer : Type 0} (interval : ℕ → Outcome Timer) where
  unfoldable pub new : ReplicaConfig Ip → Outcome (ReplicaRuntimeConfig Ip Timer)
  new config = do
    gc_interval ← interval (nanos config.gc_interval)
    membership_poll_interval ← interval (nanos (config.object_storage_config).discovery_interval)
    ok (record {
      address = config.address;
      advertised_address = config.advertised_address;
      sync_interval = config.sync_interval;
      gc_base_interval = nanos config.gc_interval;
      gc_interval = gc_interval;
      membership_poll_interval = membership_poll_interval;
    })

  unfoldable pub reschedule_gc :
      (ℕ → ℕ → ℕ) → ℕ → ReplicaRuntimeConfig Ip Timer → Outcome (ReplicaRuntimeConfig Ip Timer)
  reschedule_gc random_range peer_count r = do
    timer ← interval (gc_period random_range r.gc_base_interval peer_count)
    ok (record r { gc_interval = timer })

  -- Where a timer panics on a period of zero only, rescheduling the garbage collection never
  -- panics, and the constructor panics on a garbage collection interval of zero.
  pub reschedule_gc-ok :
      (random_range : ℕ → ℕ → ℕ) (peer_count : ℕ) (r : ReplicaRuntimeConfig Ip Timer)
      (config : ReplicaConfig Ip)
      → IsTimer interval
      → ((a b : ℕ) → a ≤ b → (a ≤ random_range a b) × (random_range a b ≤ b))
      → ((r' : ReplicaRuntimeConfig Ip Timer) × (reschedule_gc random_range peer_count r ≡ ok r'))
        × (config.gc_interval ≡ 0 → new config ≡ panic)
  unfolding reschedule_gc new
  reschedule_gc-ok random_range peer_count r config w in_range =
      let (t, e) =
        w.made (gc_period random_range r.gc_base_interval peer_count)
          (gc_period-pos random_range r.gc_base_interval peer_count in_range) in
      ((record r { gc_interval = t }, rw e refl), λ z. rw (z, w.zero_panics) refl)
