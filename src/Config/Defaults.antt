-- ===== src/Config/Defaults.antt =====
-- internal/config/defaults.go: the built-in configuration. Durations are in nanoseconds.
use gokvx.Prelude.{ℕ, ◌*◌, ◌^◌, true, false, [], ◌∷◌}
use gokvx.Prelude.Int.{pos}
use gokvx.Shard.{default_slot_count}
use gokvx.Config.Types.{
  Float, multiple, Config, Node, Listen, Auth, Tls, Limits, Storage, Cluster, Observability,
}
use gokvx.Config.Rules.{production, mode_enabled, fsync_always}

abbrev second : ℕ
second = 1_000_000_000

abbrev minute : ℕ
minute = 60 * second

abbrev millisecond : ℕ
millisecond = 1_000_000

-- The float64 of a natural number that has one.
abbrev whole : ℕ → Float
whole n = multiple (pos (n * 2 ^ 1074))

abbrev pub default_node : Node
default_node = record {
  id = "gokvx-0";
  environment = production;
  data_dir = "/var/lib/gokvx";
  shutdown_grace = pos (20 * second);
}

abbrev pub default_listen : Listen
default_listen = record {
  client = "0.0.0.0:2379";
  peer = "0.0.0.0:2380";
  metrics = "127.0.0.1:9100";
  diagnostics = "127.0.0.1:6060";
}

abbrev pub default_auth : Auth
default_auth = record {
  mode = mode_enabled;
  insecure_allow_remote = false;
  jwt = record {
    issuer_url = "";
    jwks_url = "";
    audience = "gokvx" ∷ [];
    algorithms = "RS256" ∷ [];
    clock_skew = pos (60 * second);
    refresh_interval = pos (15 * minute);
    min_refresh_interval = pos (60 * second);
    http_timeout = pos (5 * second);
    max_response_bytes = pos (2 ^ 20);
    min_rsa_bits = pos 2048;
    claims_cache = record { max_entries = pos 10_000 };
  };
  scopes = record { read = "kv:read"; write = "kv:write"; watch = "kv:watch"; admin = "kv:admin" };
}

abbrev pub default_tls : Tls
default_tls = record {
  enabled = true;
  min_version = "1.3";
  cert_file = "/etc/gokvx/tls/tls.crt";
  key_file = "/etc/gokvx/tls/tls.key";
  client_ca_file = "/etc/gokvx/tls/client-ca.crt";
  peer_ca_file = "/etc/gokvx/tls/peer-ca.crt";
  reload = true;
  allowed_peer_sans = [];
  allowed_client_sans = [];
}

abbrev pub default_limits : Limits
default_limits = record {
  max_key_bytes = pos 1024;
  max_value_bytes = pos (2 ^ 20);
  max_request_bytes = pos (4 * 2 ^ 20);
  max_concurrent_streams = pos 1000;
  max_watchers_per_principal = pos 100;
  rate_limit = record {
    read = record { rate = whole 5000; burst = pos 10_000 };
    write = record { rate = whole 1000; burst = pos 2000 };
    admin = record { rate = whole 10; burst = pos 20 };
  };
}

abbrev pub default_storage : Storage
default_storage = record {
  engine = "pebble";
  fsync = fsync_always;
  fsync_interval = pos (100 * millisecond);
  wal_segment_bytes = pos (64 * 2 ^ 20);
  wal_retain_segments = pos 4;
  snapshot_entries = pos 10_000;
  snapshot_interval = pos (30 * minute);
  quota_bytes = pos (8 * 2 ^ 30);
  auto_compaction_retention = pos 1000;
}

abbrev pub default_cluster : Cluster
default_cluster = record {
  bootstrap = false;
  initial_peers = [];
  slot_count = default_slot_count;
  groups = pos 1;
  replication_factor = pos 3;
  raft = record {
    tick_interval = pos (100 * millisecond);
    heartbeat_ticks = pos 1;
    election_ticks = pos 10;
    max_inflight_msgs = pos 256;
    max_size_per_msg = pos (2 ^ 20);
    pre_vote = true;
    check_quorum = true;
    leader_transfer_on_shutdown = true;
  };
  read = record {
    default_consistency = "linearizable";
    forward_writes_to_leader = true;
    leader_wait_timeout = pos (3 * second);
  };
}

-- 0.05 is the float64 0x1999999999999a · 2^-57.
abbrev pub default_observability : Observability
default_observability = record {
  log = record { level = "info"; format = "json" };
  tracing = record {
    enabled = true;
    otlp_endpoint = "otel-collector.observability.svc:4317";
    sampler = "parentbased_traceidratio";
    sample_ratio = multiple (pos (0x1999_9999_9999_9a * 2 ^ 1017));
  };
  metrics = record { enabled = true };
  health = record { max_apply_lag_entries = pos 1000 };
}

abbrev pub defaults : Config
defaults = record {
  node = default_node;
  listen = default_listen;
  advertise = record { client = ""; peer = "" };
  auth = default_auth;
  tls = default_tls;
  limits = default_limits;
  storage = default_storage;
  cluster = default_cluster;
  observability = default_observability;
}
