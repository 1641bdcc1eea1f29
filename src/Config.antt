-- ===== src/Config.antt =====
-- The configuration: `ServerAddr` and `ObjectStorageConfig` of src/lib.rs, and `ReplicaConfig` of
-- src/replica_helpers.rs with the variables of the environment that it is read from. An address of a
-- network interface is of a type of `std::net`, whose parser is a parameter; durations are numbers of
-- milliseconds, or of nanoseconds where it is said.
pub mod Timer
pub mod Runtime
use gresse.Prelude.{
  ℕ, ◌+◌, ◌-◌, ◌*◌, ◌%◌, ◌^◌, Bool, true, false, not, ◌&&◌, ◌||◌, Option, none, some, List, [], ◌∷◌,
  if◌then◌else◌, Outcome, ok, panic, ◌>>=◌, expect, leb, ltb, nat_key,
}
use gresse.Set
use gresse.Text.{Text, parse_nat}
use gresse.Text.Lines.{text_key, trim, to_ascii_lowercase}

abbrev pub u16_max : ℕ
u16_max = 2 ^ 16 - 1

abbrev pub u64_max : ℕ
u64_max = 2 ^ 64 - 1

-- The variables that are read, by their names.
pub data Variable : Type 0 where
  gresse_addr : Variable
  gresse_http_port : Variable
  gresse_internal_port : Variable
  gresse_durable : Variable
  gresse_durability_path : Variable
  gresse_advertise_addr : Variable
  gresse_sync_interval_ms : Variable
  gresse_gc_interval_ms : Variable
  gresse_object_storage_local_dir : Variable
  gresse_object_storage_url : Variable
  gresse_object_storage_region : Variable
  gresse_object_storage_bucket : Variable
  gresse_object_storage_access_key : Variable
  gresse_object_storage_secret_key : Variable
  gresse_object_storage_session_token : Variable
  gresse_object_storage_discovery_interval_ms : Variable
  gresse_persistent_replica_path : Variable
  gresse_membership_directory_path : Variable
  gresse_replica_network_latency_ms : Variable
  gresse_replica_network_latency_jitter_ms : Variable
  aws_access_key_id : Variable
  aws_secret_access_key : Variable
  aws_profile : Variable
  aws_shared_credentials_file : Variable
  aws_config_file : Variable
  home : Variable

-- `std::env::var(..).ok()`.
abbrev pub Env : Type 0
Env = Variable → Option Text

abbrev is_empty : Text → Bool
is_empty [] = true
is_empty (_ ∷ _) = false

abbrev pub or_text : Text → Option Text → Text
or_text default none = default
or_text default (some value) = value

unfoldable pub env_string : Env → Variable → Outcome Text
env_string env name = expect (env name)

abbrev non_blank : Option Text → Option Text
non_blank none = none
non_blank (some value) = if is_empty (trim value) then none else some value

unfoldable pub env_optional_string : Env → Variable → Option Text
env_optional_string env name = non_blank (env name)

unfoldable pub env_string_or_default : Env → Variable → Text → Text
env_string_or_default env name default = or_text default (env name)

unfoldable pub env_path : Env → Variable → Outcome Text
env_path env name = expect (env name)

abbrev trimmed : Option Text → Option Text
trimmed none = none
trimmed (some value) = if is_empty (trim value) then none else some (trim value)

unfoldable pub env_optional_path : Env → Variable → Option Text
env_optional_path env name = trimmed (env name)

-- "1", "true", "yes", "on" and "0", "false", "no", "off".
abbrev pub truths : List Text
truths =
    (b'1' ∷ [])
    ∷ (b't' ∷ b'r' ∷ b'u' ∷ b'e' ∷ [])
    ∷ (b'y' ∷ b'e' ∷ b's' ∷ [])
    ∷ (b'o' ∷ b'n' ∷ [])
    ∷ []

abbrev pub falsehoods : List Text
falsehoods =
    (b'0' ∷ [])
    ∷ (b'f' ∷ b'a' ∷ b'l' ∷ b's' ∷ b'e' ∷ [])
    ∷ (b'n' ∷ b'o' ∷ [])
    ∷ (b'o' ∷ b'f' ∷ b'f' ∷ [])
    ∷ []

unfoldable pub parse_bool : Text → Outcome Bool
parse_bool value =
    let word = to_ascii_lowercase (trim value) in
    if Set.contains word truths
    then ok true
    else if Set.contains word falsehoods
    then ok false
    else panic

-- `None` where the variable is not set; any other word panics.
unfoldable pub env_bool : Env → Variable → Outcome (Option Bool)
env_bool env name = elim (env name) [
  | none ↦ ok none
  | some value ↦ do b ← parse_bool value; ok (some b)
]

-- `Duration::from_millis(value.parse().expect(..))`, or the default.
unfoldable pub env_millis : Env → Variable → ℕ → Outcome ℕ
env_millis env name default = elim (env name) [
  | none ↦ ok default
  | some value ↦ expect (parse_nat u64_max value)
]

abbrev pub is_true : Option Bool → Bool
is_true none = false
is_true (some b) = b

-- The address of a socket.
pub record SocketAddr (Ip : Type 0) : Type 0 where
  pub ip : Ip
  pub port : ℕ

pub record ServerAddr (Ip : Type 0) : Type 0 where
  pub ip : Ip
  pub http_port : ℕ
  pub internal_port : ℕ

module _ {Ip : Type 0} where
  unfoldable pub http : ServerAddr Ip → SocketAddr Ip
  http a = record { ip = a.ip; port = a.http_port }

  unfoldable pub internal : ServerAddr Ip → SocketAddr Ip
  internal a = record { ip = a.ip; port = a.internal_port }

  unfoldable pub with_ip : Ip → ServerAddr Ip → ServerAddr Ip
  with_ip ip a = record a { ip = ip }

  -- The ports, with the wrap-around of a release build.
  unfoldable pub increment_ports : ℕ → ServerAddr Ip → ServerAddr Ip
  increment_ports increment a = record a {
    http_port = (a.http_port + increment) % 2 ^ 16;
    internal_port = (a.internal_port + increment) % 2 ^ 16;
  }

pub record ObjectStorageConfig : Type 0 where
  pub local_dir : Option Text
  pub url : Option Text
  pub region : Text
  pub bucket : Text
  pub access_key : Option Text
  pub secret_key : Option Text
  pub session_token : Option Text
  pub persistent_replica_path : Text
  pub membership_directory_path : Text
  pub discovery_interval : ℕ

-- "us-east-1" and "gresse".
abbrev pub default_region : Text
default_region = b'u' ∷ b's' ∷ b'-' ∷ b'e' ∷ b'a' ∷ b's' ∷ b't' ∷ b'-' ∷ b'1' ∷ []

abbrev pub default_bucket : Text
default_bucket = b'g' ∷ b'r' ∷ b'e' ∷ b's' ∷ b's' ∷ b'e' ∷ []

unfoldable pub object_storage_config_from_env : Env → Outcome ObjectStorageConfig
object_storage_config_from_env env = do
  replica_path ← env_string env gresse_persistent_replica_path
  directory_path ← env_string env gresse_membership_directory_path
  interval ← env_millis env gresse_object_storage_discovery_interval_ms 1000
  ok (record {
    local_dir = env_optional_path env gresse_object_storage_local_dir;
    url = env_optional_string env gresse_object_storage_url;
    region = env_string_or_default env gresse_object_storage_region default_region;
    bucket = env_string_or_default env gresse_object_storage_bucket default_bucket;
    access_key = env_optional_string env gresse_object_storage_access_key;
    secret_key = env_optional_string env gresse_object_storage_secret_key;
    session_token = env_optional_string env gresse_object_storage_session_token;
    persistent_replica_path = replica_path;
    membership_directory_path = directory_path;
    discovery_interval = interval;
  })

pub record ReplicaConfig (Ip : Type 0) : Type 0 where
  pub address : ServerAddr Ip
  pub advertised_address : ServerAddr Ip
  pub sync_interval : ℕ
  pub gc_interval : ℕ
  pub durability_path : Option Text
  pub object_storage_config : ObjectStorageConfig

-- Sixty seconds.
abbrev pub default_gc_interval : ℕ
default_gc_interval = 60000

module _ {Ip : Type 0} (parse_ip : Text → Option Ip) where
  -- `ServerAddr::from_env`.
  unfoldable pub server_addr_from_env : Env → Outcome (ServerAddr Ip)
  server_addr_from_env env = do
    ip_text ← expect (env gresse_addr)
    http_text ← expect (env gresse_http_port)
    internal_text ← expect (env gresse_internal_port)
    ip ← expect (parse_ip ip_text)
    http_port ← expect (parse_nat u16_max http_text)
    internal_port ← expect (parse_nat u16_max internal_text)
    ok (record { ip = ip; http_port = http_port; internal_port = internal_port })

  -- The published address: the listener's, with another interface if one is given.
  unfoldable pub advertised : Option Text → ServerAddr Ip → Outcome (ServerAddr Ip)
  advertised none address = ok address
  advertised (some text) address = do ip ← expect (parse_ip text); ok (with_ip ip address)

  unfoldable pub durability_path_of : Env → Option Bool → Outcome (Option Text)
  durability_path_of env durable =
      if is_true durable
      then (do path ← env_path env gresse_durability_path; ok (some path))
      else ok none

  -- `ReplicaConfig::from_env`.
  unfoldable pub from_env : Env → Outcome (ReplicaConfig Ip)
  from_env env = do
    durable ← env_bool env gresse_durable
    address ← server_addr_from_env env
    published ← advertised (env_optional_string env gresse_advertise_addr) address
    path ← durability_path_of env durable
    sync_interval ← env_millis env gresse_sync_interval_ms 1000
    gc_interval ← env_millis env gresse_gc_interval_ms default_gc_interval
    storage ← object_storage_config_from_env env
    ok (record {
      address = address;
      advertised_address = published;
      sync_interval = sync_interval;
      gc_interval = gc_interval;
      durability_path = path;
      object_storage_config = storage;
    })
