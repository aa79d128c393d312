-- ===== src/Config/Types.antt =====
-- internal/config/config.go, auth.go, cluster.go, limits.go, observability.go, storage.go and
-- tls.go: the sections of a configuration. An int, an int64 or a duration is an integer.
use gokvx.Prelude.{ℕ, Bool, String, List}
use gokvx.Prelude.Int.{ℤ}

-- A float64: every finite one is a multiple of 2^-1074.
pub data Float : Type 0 where
  nan infinite negative_infinite : Float
  multiple : ℤ → Float

pub record Node : Type 0 where
  pub id : String
  pub environment : String
  pub data_dir : String
  pub shutdown_grace : ℤ

pub record Listen : Type 0 where
  pub client : String
  pub peer : String
  pub metrics : String
  pub diagnostics : String

pub record Advertise : Type 0 where
  pub client : String
  pub peer : String

pub record ClaimsCache : Type 0 where
  pub max_entries : ℤ

pub record Jwt : Type 0 where
  pub issuer_url : String
  pub jwks_url : String
  pub audience : List String
  pub algorithms : List String
  pub clock_skew : ℤ
  pub refresh_interval : ℤ
  pub min_refresh_interval : ℤ
  pub http_timeout : ℤ
  pub max_response_bytes : ℤ
  pub min_rsa_bits : ℤ
  pub claims_cache : ClaimsCache

pub record Scopes : Type 0 where
  pub read : String
  pub write : String
  pub watch : String
  pub admin : String

pub record Auth : Type 0 where
  pub mode : String
  pub insecure_allow_remote : Bool
  pub jwt : Jwt
  pub scopes : Scopes

pub record Tls : Type 0 where
  pub enabled : Bool
  pub min_version : String
  pub cert_file : String
  pub key_file : String
  pub client_ca_file : String
  pub peer_ca_file : String
  pub reload : Bool
  pub allowed_peer_sans : List String
  pub allowed_client_sans : List String

pub record RateLimit : Type 0 where
  pub rate : Float
  pub burst : ℤ

pub record RateLimits : Type 0 where
  pub read : RateLimit
  pub write : RateLimit
  pub admin : RateLimit

pub record Limits : Type 0 where
  pub max_key_bytes : ℤ
  pub max_value_bytes : ℤ
  pub max_request_bytes : ℤ
  pub max_concurrent_streams : ℤ
  pub max_watchers_per_principal : ℤ
  pub rate_limit : RateLimits

pub record Storage : Type 0 where
  pub engine : String
  pub fsync : String
  pub fsync_interval : ℤ
  pub wal_segment_bytes : ℤ
  pub wal_retain_segments : ℤ
  pub snapshot_entries : ℤ
  pub snapshot_interval : ℤ
  pub quota_bytes : ℤ
  pub auto_compaction_retention : ℤ

pub record Raft : Type 0 where
  pub tick_interval : ℤ
  pub heartbeat_ticks : ℤ
  pub election_ticks : ℤ
  pub max_inflight_msgs : ℤ
  pub max_size_per_msg : ℤ
  pub pre_vote : Bool
  pub check_quorum : Bool
  pub leader_transfer_on_shutdown : Bool

pub record Read : Type 0 where
  pub default_consistency : String
  pub forward_writes_to_leader : Bool
  pub leader_wait_timeout : ℤ

-- `slot_count` is a uint32.
pub record Cluster : Type 0 where
  pub bootstrap : Bool
  pub initial_peers : List String
  pub slot_count : ℕ
  pub groups : ℤ
  pub replication_factor : ℤ
  pub raft : Raft
  pub read : Read

-- Observability's section `log`.
pub record Logging : Type 0 where
  pub level : String
  pub format : String

pub record Tracing : Type 0 where
  pub enabled : Bool
  pub otlp_endpoint : String
  pub sampler : String
  pub sample_ratio : Float

pub record Metrics : Type 0 where
  pub enabled : Bool

pub record Health : Type 0 where
  pub max_apply_lag_entries : ℤ

pub record Observability : Type 0 where
  pub log : Logging
  pub tracing : Tracing
  pub metrics : Metrics
  pub health : Health

pub record Config : Type 0 where
  pub node : Node
  pub listen : Listen
  pub advertise : Advertise
  pub auth : Auth
  pub tls : Tls
  pub limits : Limits
  pub storage : Storage
  pub cluster : Cluster
  pub observability : Observability
