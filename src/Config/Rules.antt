-- ===== src/Config/Rules.antt =====
-- internal/config/rules.go and Validate of validate.go: the rules of each section. A rule answers
-- the violations that it adds, in order; `++` runs one rule after another.
use Prim.Native.String.{◌++◌ as ◌^^◌}
use text.Mathlib.Text.{◌==◌}
use gokvx.Prelude.{
  Bool, true, false, not, ◌&&◌, ◌||◌, if◌then◌else◌, ◌^◌, ◌++◌, String, List, [], ◌∷◌, Option, none,
  some,
}
use gokvx.Prelude.Int.{pos}
use gokvx.Kverr.Error.{GoError}
use gokvx.Config.Types.{Config, Scopes}
use gokvx.Config.Checks.{
  Texts, Violations, add, add_if, ltz, times_ten, require_value, require_positive,
  require_non_negative, float_outside, require_positive_float, err_of, require_one_of,
  require_host_port, require_https_url, is_loopback, require_entries,
}

abbrev pub production : String
production = "production"

abbrev pub staging : String
staging = "staging"

abbrev pub development : String
development = "development"

abbrev pub mode_enabled : String
mode_enabled = "enabled"

abbrev pub mode_disabled : String
mode_disabled = "disabled"

abbrev pub fsync_always : String
fsync_always = "always"

abbrev pub fsync_interval : String
fsync_interval = "interval"

abbrev pub fsync_os : String
fsync_os = "os"

abbrev pub jwt_algorithms : List String
jwt_algorithms =
    "RS256" ∷ "RS384" ∷ "RS512" ∷ "PS256" ∷ "PS384" ∷ "PS512" ∷ "ES256" ∷ "ES384" ∷ "ES512" ∷ []

abbrev pub trace_samplers : List String
trace_samplers =
    "always_on" ∷ "always_off" ∷ "traceidratio" ∷ "parentbased_always_on" ∷ "parentbased_always_off"
    ∷ "parentbased_traceidratio" ∷ []

-- A key and its value: the struct `setting`.
abbrev pub Setting : Type 0
Setting = String × String

-- A rule for each setting of a list, in order.
unfoldable pub for_each {ℓ} : {A : Type ℓ} → (A → Violations) → List A → Violations
for_each rule [] = []
for_each rule (x ∷ xs) = rule x ++ for_each rule xs

unfoldable pub validate_node : Texts → Config → Violations
validate_node texts c =
    require_value "node.id" c.node.id
    ++ (require_one_of texts "node.environment" c.node.environment
          (production ∷ staging ∷ development ∷ [])
        ++ (require_value "node.data_dir" c.node.data_dir
            ++ require_positive "node.shutdown_grace" c.node.shutdown_grace))

-- An address that is checked only when it is set.
unfoldable pub optional_address : Texts → Setting → Violations
optional_address texts (key, value) = if value == "" then [] else require_host_port texts key value

unfoldable pub validate_listen : Texts → Config → Violations
unfolding for_each optional_address
validate_listen texts c =
    require_host_port texts "listen.client" c.listen.client
    ++ (require_host_port texts "listen.peer" c.listen.peer
        ++ ((if c.observability.metrics.enabled || not (c.listen.metrics == "")
              then require_host_port texts "listen.metrics" c.listen.metrics
              else [])
            ++ for_each (optional_address texts) (
                ("listen.diagnostics", c.listen.diagnostics)
                ∷ ("advertise.client", c.advertise.client)
                ∷ ("advertise.peer", c.advertise.peer)
                ∷ [])))

-- The last rule of validateAuth, for one address.
unfoldable pub require_loopback : Texts → Setting → Violations
require_loopback texts (key, value) =
    add_if (not (value == "") && not (is_loopback texts value)) key
      "must be a loopback address while authentication is disabled, unless auth.insecure_allow_remote is true"

abbrev pub listeners : Config → List Setting
listeners c =
    ("listen.client", c.listen.client)
    ∷ ("listen.peer", c.listen.peer)
    ∷ ("listen.metrics", c.listen.metrics)
    ∷ ("listen.diagnostics", c.listen.diagnostics)
    ∷ []

-- validateAuth, once it is known that authentication is disabled.
unfoldable pub validate_disabled : Texts → Config → Violations
unfolding for_each require_loopback
validate_disabled texts c =
    add_if (not (c.node.environment == development)) "auth.mode"
      "may be disabled only when node.environment is development"
    ++ (if c.auth.insecure_allow_remote
        then []
        else for_each (require_loopback texts) (listeners c))

unfoldable pub validate_jwt : Texts → Config → Violations
unfolding for_each
validate_jwt texts c =
    let j = c.auth.jwt in
    (if c.auth.mode == mode_enabled
      then require_https_url texts "auth.jwt.issuer_url" j.issuer_url
        ++ require_https_url texts "auth.jwt.jwks_url" j.jwks_url
      else [])
    ++ (require_entries texts "auth.jwt.audience" j.audience
        ++ (require_entries texts "auth.jwt.algorithms" j.algorithms
            ++ (for_each (λ alg. require_one_of texts "auth.jwt.algorithms" alg jwt_algorithms)
                  j.algorithms
                ++ (require_non_negative "auth.jwt.clock_skew" j.clock_skew
                    ++ (require_positive "auth.jwt.refresh_interval" j.refresh_interval
                        ++ (require_positive "auth.jwt.min_refresh_interval" j.min_refresh_interval
                            ++ (require_positive "auth.jwt.http_timeout" j.http_timeout
                                ++ (require_positive "auth.jwt.max_response_bytes"
                                      j.max_response_bytes
                                    ++ (add_if (ltz j.min_rsa_bits (pos 2048))
                                          "auth.jwt.min_rsa_bits"
                                          "must be at least 2048 (KV-SEC-018)"
                                        ++ require_non_negative "auth.jwt.claims_cache.max_entries"
                                            j.claims_cache.max_entries)))))))))

-- The map `seen` of validateScopes: the last key with a value.
unfoldable pub seen_as : String → List Setting → Option String
seen_as value [] = none
seen_as value ((key, other) ∷ more) = if other == value then some key else seen_as value more

-- The loop of validateScopes; `seen` lists the scopes before, the last one first.
unfoldable pub distinct_from : Option String → Setting → Violations
distinct_from none (key, value) = []
distinct_from (some other) (key, value) =
    add_if (not (value == "")) key
      ("must differ from " ^^ (other ^^ "; one scope must never grant another"))

unfoldable pub check_scopes : List Setting → List Setting → Violations
unfolding seen_as distinct_from
check_scopes seen [] = []
check_scopes seen (s ∷ ss) =
    require_value s.0 s.1 ++ (distinct_from (seen_as s.1 seen) s ++ check_scopes (s ∷ seen) ss)

abbrev pub scope_settings : Scopes → List Setting
scope_settings s =
    ("auth.scopes.read", s.read)
    ∷ ("auth.scopes.write", s.write)
    ∷ ("auth.scopes.watch", s.watch)
    ∷ ("auth.scopes.admin", s.admin)
    ∷ []

unfoldable pub validate_scopes : Scopes → Violations
unfolding check_scopes
validate_scopes s = check_scopes [] (scope_settings s)

unfoldable pub validate_auth : Texts → Config → Violations
unfolding validate_jwt validate_scopes validate_disabled
validate_auth texts c =
    require_one_of texts "auth.mode" c.auth.mode (mode_enabled ∷ mode_disabled ∷ [])
    ++ (validate_jwt texts c
        ++ (validate_scopes c.auth.scopes
            ++ (if not (c.auth.mode == mode_disabled) then [] else validate_disabled texts c)))

unfoldable pub is_empty : List String → Bool
is_empty [] = true
is_empty (s ∷ ss) = false

-- validateTLS, once it is known that TLS is on.
unfoldable pub validate_certificates : Texts → Config → Violations
unfolding is_empty
validate_certificates texts c =
    require_value "tls.cert_file" c.tls.cert_file
    ++ (require_value "tls.key_file" c.tls.key_file
        ++ (require_value "tls.client_ca_file" c.tls.client_ca_file
            ++ (require_entries texts "tls.allowed_client_sans" c.tls.allowed_client_sans
                ++ (if is_empty c.cluster.initial_peers
                    then []
                    else require_value "tls.peer_ca_file" c.tls.peer_ca_file
                      ++ require_entries texts "tls.allowed_peer_sans" c.tls.allowed_peer_sans))))

unfoldable pub validate_tls : Texts → Config → Violations
unfolding validate_certificates
validate_tls texts c =
    require_one_of texts "tls.min_version" c.tls.min_version ("1.3" ∷ "1.2" ∷ [])
    ++ (if not c.tls.enabled
        then add_if (c.auth.mode == mode_enabled) "tls.enabled"
            "may be false only when auth.mode is disabled (KV-SEC-001)"
        else validate_certificates texts c)

unfoldable pub validate_limits : Config → Violations
validate_limits c =
    let l = c.limits in
    require_positive "limits.max_key_bytes" l.max_key_bytes
    ++ (require_positive "limits.max_value_bytes" l.max_value_bytes
        ++ (require_positive "limits.max_request_bytes" l.max_request_bytes
            ++ (require_positive "limits.max_concurrent_streams" l.max_concurrent_streams
                ++ (require_positive "limits.max_watchers_per_principal"
                      l.max_watchers_per_principal
                    ++ (add_if (ltz l.max_request_bytes l.max_key_bytes) "limits.max_key_bytes"
                          "must not exceed limits.max_request_bytes"
                        ++ (add_if (ltz l.max_request_bytes l.max_value_bytes)
                              "limits.max_value_bytes" "must not exceed limits.max_request_bytes"
                            ++ (require_positive_float "limits.rate_limit.read.rate"
                                  l.rate_limit.read.rate
                                ++ (require_positive "limits.rate_limit.read.burst"
                                      l.rate_limit.read.burst
                                    ++ (require_positive_float "limits.rate_limit.write.rate"
                                          l.rate_limit.write.rate
                                        ++ (require_positive "limits.rate_limit.write.burst"
                                              l.rate_limit.write.burst
                                            ++ (require_positive_float
                                                  "limits.rate_limit.admin.rate"
                                                  l.rate_limit.admin.rate
                                                ++ require_positive "limits.rate_limit.admin.burst"
                                                    l.rate_limit.admin.burst)))))))))))

unfoldable pub validate_storage : Texts → Config → Violations
validate_storage texts c =
    let s = c.storage in
    require_one_of texts "storage.engine" s.engine ("pebble" ∷ [])
    ++ (require_one_of texts "storage.fsync" s.fsync (fsync_always ∷ fsync_interval ∷ fsync_os ∷ [])
        ++ ((if s.fsync == fsync_interval
              then require_positive "storage.fsync_interval" s.fsync_interval
              else [])
            ++ (require_positive "storage.wal_segment_bytes" s.wal_segment_bytes
                ++ (require_non_negative "storage.wal_retain_segments" s.wal_retain_segments
                    ++ (require_positive "storage.snapshot_entries" s.snapshot_entries
                        ++ (require_positive "storage.snapshot_interval" s.snapshot_interval
                            ++ (require_positive "storage.quota_bytes" s.quota_bytes
                                ++ require_non_negative "storage.auto_compaction_retention"
                                    s.auto_compaction_retention)))))))

-- One entry of initial_peers, as strings.Cut splits it.
unfoldable pub check_peer : Texts → Option (String × String) → Violations
check_peer texts none = add "cluster.initial_peers" "entries must have the form name=host:port"
check_peer texts (some (name, addr)) =
    if name == ""
    then add "cluster.initial_peers" "entries must have the form name=host:port"
    else require_host_port texts "cluster.initial_peers" addr

unfoldable pub validate_raft : Config → Violations
validate_raft c =
    let r = c.cluster.raft in
    require_positive "cluster.raft.tick_interval" r.tick_interval
    ++ (require_positive "cluster.raft.heartbeat_ticks" r.heartbeat_ticks
        ++ (add_if (ltz r.election_ticks (times_ten r.heartbeat_ticks))
              "cluster.raft.election_ticks"
              "must be at least 10 × cluster.raft.heartbeat_ticks (KV-CON-004)"
            ++ (require_positive "cluster.raft.max_inflight_msgs" r.max_inflight_msgs
                ++ (require_positive "cluster.raft.max_size_per_msg" r.max_size_per_msg
                    ++ (add_if (not r.pre_vote) "cluster.raft.pre_vote" "must be true (KV-CON-005)"
                        ++ add_if (not r.check_quorum) "cluster.raft.check_quorum"
                            "must be true (KV-CON-006)")))))

unfoldable pub validate_cluster : Texts → Config → Violations
unfolding for_each check_peer validate_raft
validate_cluster texts c =
    for_each (λ peer. check_peer texts (texts.cut peer "=")) c.cluster.initial_peers
    ++ (require_positive "cluster.slot_count" (pos c.cluster.slot_count)
        ++ (require_positive "cluster.groups" c.cluster.groups
            ++ (require_positive "cluster.replication_factor" c.cluster.replication_factor
                ++ (validate_raft c
                    ++ (require_one_of texts "cluster.read.default_consistency"
                          c.cluster.read.default_consistency ("linearizable" ∷ [])
                        ++ require_positive "cluster.read.leader_wait_timeout"
                            c.cluster.read.leader_wait_timeout)))))

unfoldable pub validate_observability : Texts → Config → Violations
validate_observability texts c =
    let o = c.observability in
    require_one_of texts "observability.log.level" o.log.level
      ("debug" ∷ "info" ∷ "warn" ∷ "error" ∷ [])
    ++ (require_one_of texts "observability.log.format" o.log.format ("json" ∷ "text" ∷ [])
        ++ (add_if (o.log.format == "text" && not (c.node.environment == development))
              "observability.log.format"
              "may be text only when node.environment is development (KV-OBS-020)"
            ++ ((if o.tracing.enabled
                  then require_value "observability.tracing.otlp_endpoint" o.tracing.otlp_endpoint
                  else [])
                ++ (require_one_of texts "observability.tracing.sampler" o.tracing.sampler
                      trace_samplers
                    ++ (add_if (float_outside o.tracing.sample_ratio (pos 0) (pos (2 ^ 1074)))
                          "observability.tracing.sample_ratio" "must be between 0 and 1"
                        ++ require_positive "observability.health.max_apply_lag_entries"
                            o.health.max_apply_lag_entries)))))

-- Validate: what the rules find.
unfoldable pub found : Texts → Config → Violations
unfolding validate_node validate_listen validate_auth validate_tls validate_limits validate_storage
    validate_cluster validate_observability
found texts c =
    validate_node texts c
    ++ (validate_listen texts c
        ++ (validate_auth texts c
            ++ (validate_tls texts c
                ++ (validate_limits c
                    ++ (validate_storage texts c
                        ++ (validate_cluster texts c ++ validate_observability texts c))))))

unfoldable pub validate : Texts → Config → Option GoError
unfolding found err_of
validate texts c = err_of texts "configuration is invalid" (found texts c)
