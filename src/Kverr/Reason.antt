-- ===== src/Kverr/Reason.antt =====
-- internal/kverr/reason.go: the reasons and their registry. A Reason is a string, so any text can stand
-- where a reason is expected; the registry says which are known.
use text.Mathlib.Text.{◌==◌}
use gokvx.Prelude.{ℕ, Bool, true, false, if◌then◌else◌, String, List, [], ◌∷◌, Option, none, some}
use gokvx.Kverr.Kind.{
  kind_canceled, kind_deadline_exceeded, kind_failed_precondition, kind_internal,
  kind_invalid_argument, kind_out_of_range, kind_permission_denied, kind_resource_exhausted,
  kind_unauthenticated, kind_unavailable, kind_unimplemented,
}

abbrev pub Reason : Type 0
Reason = String

abbrev pub is_reason : Reason → Reason → Bool
is_reason a b = a == b

abbrev pub reason_key_empty : Reason
reason_key_empty = "KEY_EMPTY"

abbrev pub reason_key_too_large : Reason
reason_key_too_large = "KEY_TOO_LARGE"

abbrev pub reason_value_too_large : Reason
reason_value_too_large = "VALUE_TOO_LARGE"

abbrev pub reason_invalid_argument : Reason
reason_invalid_argument = "INVALID_ARGUMENT"

abbrev pub reason_revision_compacted : Reason
reason_revision_compacted = "REVISION_COMPACTED"

abbrev pub reason_missing_credential : Reason
reason_missing_credential = "MISSING_CREDENTIAL"

abbrev pub reason_invalid_token : Reason
reason_invalid_token = "INVALID_TOKEN"

abbrev pub reason_unknown_key_id : Reason
reason_unknown_key_id = "UNKNOWN_KEY_ID"

abbrev pub reason_insufficient_scope : Reason
reason_insufficient_scope = "INSUFFICIENT_SCOPE"

abbrev pub reason_rate_limited : Reason
reason_rate_limited = "RATE_LIMITED"

abbrev pub reason_quota_exceeded : Reason
reason_quota_exceeded = "QUOTA_EXCEEDED"

abbrev pub reason_watch_buffer_overflow : Reason
reason_watch_buffer_overflow = "WATCH_BUFFER_OVERFLOW"

abbrev pub reason_not_leader : Reason
reason_not_leader = "NOT_LEADER"

abbrev pub reason_no_leader : Reason
reason_no_leader = "NO_LEADER"

abbrev pub reason_stale_read_bound_unmet : Reason
reason_stale_read_bound_unmet = "STALE_READ_BOUND_UNMET"

abbrev pub reason_cross_shard_txn_unsupported : Reason
reason_cross_shard_txn_unsupported = "CROSS_SHARD_TXN_UNSUPPORTED"

abbrev pub reason_feature_not_in_current_phase : Reason
reason_feature_not_in_current_phase = "FEATURE_NOT_IN_CURRENT_PHASE"

abbrev pub reason_shutting_down : Reason
reason_shutting_down = "SHUTTING_DOWN"

abbrev pub reason_deadline_exceeded : Reason
reason_deadline_exceeded = "DEADLINE_EXCEEDED"

abbrev pub reason_canceled : Reason
reason_canceled = "CANCELED"

abbrev pub reason_internal : Reason
reason_internal = "INTERNAL"

pub record ReasonInfo : Type 0 where
  pub kind : ℕ
  pub retryable : Bool
  pub description : String

abbrev pub Registry : Type 0
Registry = List (Reason × ReasonInfo)

-- A map index with the comma-ok form.
unfoldable pub info_of : Reason → Registry → Option ReasonInfo
info_of r [] = none
info_of r ((s, info) ∷ m) = if s == r then some info else info_of r m

entry : ℕ → Bool → String → ReasonInfo
entry k b d = record { kind = k; retryable = b; description = d }

unfoldable pub reasons : Registry
unfolding entry
reasons =
    (
      reason_key_empty,
      entry kind_invalid_argument false
          "The key is empty, which is only valid as a range boundary.",
    )
    ∷ (
      reason_key_too_large,
      entry kind_invalid_argument false "The key exceeds the configured maximum key length.",
    )
    ∷ (
      reason_value_too_large,
      entry kind_invalid_argument false "The value exceeds the configured maximum value size.",
    )
    ∷ (
      reason_invalid_argument,
      entry kind_invalid_argument false
          "The request is malformed or its fields contradict each other.",
    )
    ∷ (
      reason_revision_compacted,
      entry kind_out_of_range false
          "The requested revision is below the compaction point and is no longer available.",
    )
    ∷ (
      reason_missing_credential,
      entry kind_unauthenticated false "The request carried no usable bearer token.",
    )
    ∷ (
      reason_invalid_token,
      entry kind_unauthenticated false "The bearer token could not be verified.",
    )
    ∷ (
      reason_unknown_key_id,
      entry kind_unauthenticated false "The token's signing key is not known to this node.",
    )
    ∷ (
      reason_insufficient_scope,
      entry kind_permission_denied false
          "The authenticated principal lacks the scope this method requires.",
    )
    ∷ (
      reason_rate_limited,
      entry kind_resource_exhausted true "The principal exceeded its request rate limit.",
    )
    ∷ (
      reason_quota_exceeded,
      entry kind_resource_exhausted true
          "The database size quota is exhausted; writes are refused until space is reclaimed.",
    )
    ∷ (
      reason_watch_buffer_overflow,
      entry kind_resource_exhausted true
          "The watch was canceled because its consumer fell too far behind.",
    )
    ∷ (
      reason_not_leader,
      entry kind_failed_precondition true "This node is not the leader for the requested keys.",
    )
    ∷ (
      reason_no_leader,
      entry kind_unavailable true "No leader is currently known for the requested keys.",
    )
    ∷ (
      reason_stale_read_bound_unmet,
      entry kind_failed_precondition true
          "This replica has not yet applied the minimum revision the read requires.",
    )
    ∷ (
      reason_cross_shard_txn_unsupported,
      entry kind_failed_precondition false
          "The transaction spans more than one shard group, which is not supported.",
    )
    ∷ (
      reason_feature_not_in_current_phase,
      entry kind_unimplemented false
          "The requested field or method is defined in the contract but not yet implemented.",
    )
    ∷ (
      reason_shutting_down,
      entry kind_unavailable true "The node is shutting down and is no longer accepting requests.",
    )
    ∷ (
      reason_deadline_exceeded,
      entry kind_deadline_exceeded true
          "The caller's deadline elapsed before the request completed.",
    )
    ∷ (reason_canceled, entry kind_canceled false "The caller canceled the request.")
    ∷ (reason_internal, entry kind_internal false "An internal error occurred.")
    ∷ []

unfoldable pub kind_of : Reason → ℕ
kind_of r = elim (info_of r reasons) [ some info ↦ info.kind | none ↦ kind_internal ]

-- A missing key reads the zero ReasonInfo.
unfoldable pub retryable : Reason → Bool
retryable r = elim (info_of r reasons) [ some info ↦ info.retryable | none ↦ false ]

unfoldable pub description : Reason → String
description r = elim (info_of r reasons) [ some info ↦ info.description | none ↦ "" ]

unfoldable pub registered : Reason → Bool
registered r = elim (info_of r reasons) [ some info ↦ true | none ↦ false ]
