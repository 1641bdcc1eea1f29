-- ===== src/Tests/Timers.antt =====
-- A random generator that draws the lower bound, and a configuration.
use gresse.Prelude.{
  ℕ, ◌+◌, ◌/◌, ◌≤◌, ◌≡◌, refl, suc, zero, none, [], Outcome, ok, panic, arith, nat_key,
}
use gresse.Config.{u64_max, ServerAddr, ReplicaConfig, ObjectStorageConfig}
use gresse.Config.Timer.{gc_period, gc_period-bounds}
use gresse.Config.Runtime
use gresse.Config.Runtime.{ReplicaRuntimeConfig, IsTimer}

abbrev draw : ℕ → ℕ → ℕ
draw a b = a

draw_in_range : (a b : ℕ) → a ≤ b → (a ≤ draw a b) × (draw a b ≤ b)
draw_in_range a b h = (omega arith, h)

gc_period-bounds_example :
    (1 ≤ gc_period draw 600 2)
    × (gc_period draw 600 2 ≤ u64_max)
    × (600 ≤ gc_period draw 600 2 + 600 / (2 + 1))
    × (gc_period draw 600 2 ≤ 600 + 600 / (2 + 1) + 1)
gc_period-bounds_example =
    gc_period-bounds draw 600 2 draw_in_range (omega arith) (omega arith) (omega arith)

-- A timer is its period.
abbrev interval : ℕ → Outcome ℕ
interval zero = panic
interval (suc n) = ok (suc n)

interval-made : (n : ℕ) → 1 ≤ n → (t : ℕ) × (interval n ≡ ok t)
interval-made zero h = absurd (omega (arith, h))
interval-made (suc n) h = (suc n, refl)

interval-IsTimer : IsTimer interval
interval-IsTimer = record { zero_panics = refl; made = interval-made }

abbrev address : ServerAddr ℕ
address = record { ip = 1; http_port = 9090; internal_port = 8080 }

abbrev storage : ObjectStorageConfig
storage = record {
  local_dir = none;
  url = none;
  region = [];
  bucket = [];
  access_key = none;
  secret_key = none;
  session_token = none;
  persistent_replica_path = [];
  membership_directory_path = [];
  discovery_interval = 1000;
}

abbrev config : ReplicaConfig ℕ
config = record {
  address = address;
  advertised_address = address;
  sync_interval = 1000;
  gc_interval = 0;
  durability_path = none;
  object_storage_config = storage;
}

abbrev runtime : ReplicaRuntimeConfig ℕ ℕ
runtime = record {
  address = address;
  advertised_address = address;
  sync_interval = 1000;
  gc_base_interval = 0;
  gc_interval = 1;
  membership_poll_interval = 1;
}

reschedule_gc-ok_example :
    ((r : ReplicaRuntimeConfig ℕ ℕ) × (Runtime.reschedule_gc interval draw 2 runtime ≡ ok r))
    × (config.gc_interval ≡ 0 → Runtime.new interval config ≡ panic)
reschedule_gc-ok_example =
    Runtime.reschedule_gc-ok interval draw 2 runtime config interval-IsTimer draw_in_range
