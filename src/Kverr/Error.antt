-- ===== src/Kverr/Error.antt =====
-- internal/kverr/error.go, construct.go and inspect.go: the error type, how errors are built, and
-- how a chain of errors is classified. An Error is never changed after it is built, so a method
-- that returns a changed copy is a function to a new value.
use Prim.Native.String.{◌++◌}
use text.Mathlib.Text.{◌==◌}
use gokvx.Prelude.{
  ℕ, Bool, true, false, if◌then◌else◌, ◌||◌, String, List, [], ◌∷◌, Option, none, some,
}
use mathlib.Core.List.{◌++◌ as append}
use gokvx.Prelude.Int.{ℤ, pos, negsuc}
use gokvx.Kverr.Reason.{
  Reason, registered, description, kind_of, retryable, reason_internal, reason_canceled,
  reason_deadline_exceeded,
}

pub record FieldViolation : Type 0 where
  pub field : String
  pub description : String

-- A map from texts to texts; a key stands in it once.
abbrev pub Metadata : Type 0
Metadata = List (String × String)

-- What an Error holds beside its cause. `retry_after` is a duration in nanoseconds.
pub record Details : Type 0 where
  pub reason : Reason
  pub message : String
  pub metadata : Metadata
  pub violations : List FieldViolation
  pub retry_after : ℤ

-- The values of Go's `error` that the code builds or meets. `plain` is an error of errors.New, of
-- the standard library or of a dependency; `wrapped` is fmt.Errorf with %w; `joined` is errors.Join
-- of two errors; `kv_nil` is a nil *Error in an `error`; the last two are an *Error without and
-- with a cause.
pub data GoError : Type 0 where
  canceled deadline_exceeded kv_nil : GoError
  plain : String → GoError
  wrapped : String → GoError → GoError
  joined : GoError → GoError → GoError
  kv : Details → GoError
  kv_caused : Details → GoError → GoError

pub record Error : Type 0 where
  pub details : Details
  pub open details use *
  pub cause : Option GoError

-- An *Error as an `error`.
unfoldable pub as_error : Error → GoError
as_error e = elim e.cause [ none ↦ kv e.details | some c ↦ kv_caused e.details c ]

-- New.
unfoldable pub new : Reason → String → Error
new reason message =
    let known = if registered reason then reason else reason_internal in
    record {
      details = record {
        reason = known;
        message = if message == "" then description known else message;
        metadata = [];
        violations = [];
        retry_after = pos 0;
      };
      cause = none;
    }

-- Wrap.
unfoldable pub wrap : Reason → GoError → String → Error
unfolding new
wrap reason cause message = record (new reason message) { cause = some cause }

-- A write to a map.
unfoldable pub put : String → String → Metadata → Metadata
put k v [] = (k, v) ∷ []
put k v ((j, w) ∷ m) = if j == k then (k, v) ∷ m else (j, w) ∷ put k v m

unfoldable pub get : String → Metadata → Option String
get k [] = none
get k ((j, w) ∷ m) = if j == k then some w else get k m

unfoldable pub with_metadata : Error → String → String → Error
unfolding put
with_metadata e key value = record e {
  details = record e.details { metadata = put key value e.metadata };
}

unfoldable pub with_violations : Error → List FieldViolation → Error
with_violations e vs = record e {
  details = record e.details { violations = append e.violations vs };
}

-- max(d, 0).
unfoldable pub with_retry_after : Error → ℤ → Error
with_retry_after e (pos n) = record e { details = record e.details { retry_after = pos n } }
with_retry_after e (negsuc n) = record e { details = record e.details { retry_after = pos 0 } }

-- The methods Kind and Retryable.
unfoldable pub kind : Error → ℕ
kind e = kind_of e.reason

unfoldable pub is_retryable : Error → Bool
is_retryable e = retryable e.reason

-- The text of an error. Only the text of an *Error is written in this package; the texts of the
-- two context errors are the standard library's.
unfoldable pub error_text : GoError → String
error_text canceled = "context canceled"
error_text deadline_exceeded = "context deadline exceeded"
error_text kv_nil = "<nil>"
error_text (plain s) = s
error_text (wrapped s e) = s ++ (": " ++ error_text e)
error_text (joined a b) = error_text a ++ ("\n" ++ error_text b)
error_text (kv d) = d.reason ++ (": " ++ d.message)
error_text (kv_caused d c) = (d.reason ++ (": " ++ d.message)) ++ (": " ++ error_text c)

-- Unwrap of an *Error.
unfoldable pub unwrap : Option Error → Option GoError
unwrap none = none
unwrap (some e) = e.cause

-- The method Is: the target is an *Error with the same reason, and neither is nil.
unfoldable pub same_reason : Option Details → GoError → Bool
same_reason none target = false
same_reason (some d) (kv t) = d.reason == t.reason
same_reason (some d) (kv_caused t c) = d.reason == t.reason
same_reason (some d) target = false

-- errors.Is against an *Error: some link of the chain has its reason.
unfoldable pub matches : GoError → GoError → Bool
unfolding same_reason
matches (wrapped s e) t = matches e t
matches (joined a b) t = matches a t || matches b t
matches (kv d) t = same_reason (some d) t
matches (kv_caused d c) t = same_reason (some d) t || matches c t
matches e t = false

-- errors.As to *Error: the first *Error of the chain, depth first. A nil *Error is one.
unfoldable pub first_of_chain :
    Option (Option Details) → Option (Option Details) → Option (Option Details)
first_of_chain (some d) later = some d
first_of_chain none later = later

unfoldable pub find_error : GoError → Option (Option Details)
unfolding first_of_chain
find_error kv_nil = some none
find_error (wrapped s e) = find_error e
find_error (joined a b) = first_of_chain (find_error a) (find_error b)
find_error (kv d) = some (some d)
find_error (kv_caused d c) = some (some d)
find_error e = none

-- errors.Is against context.Canceled and context.DeadlineExceeded.
unfoldable pub is_canceled : GoError → Bool
is_canceled canceled = true
is_canceled (wrapped s e) = is_canceled e
is_canceled (joined a b) = is_canceled a || is_canceled b
is_canceled (kv_caused d c) = is_canceled c
is_canceled e = false

unfoldable pub is_deadline_exceeded : GoError → Bool
is_deadline_exceeded deadline_exceeded = true
is_deadline_exceeded (wrapped s e) = is_deadline_exceeded e
is_deadline_exceeded (joined a b) = is_deadline_exceeded a || is_deadline_exceeded b
is_deadline_exceeded (kv_caused d c) = is_deadline_exceeded c
is_deadline_exceeded e = false

-- The switch of ReasonOf.
unfoldable pub classify : GoError → Reason
unfolding is_canceled is_deadline_exceeded
classify err =
    if is_canceled err
    then reason_canceled
    else if is_deadline_exceeded err
    then reason_deadline_exceeded
    else reason_internal

-- ReasonOf, on the outcome of the search for an *Error.
unfoldable pub reason_found : Option (Option Details) → GoError → Reason
unfolding classify
reason_found (some (some d)) err = d.reason
reason_found (some none) err = classify err
reason_found none err = classify err

unfoldable pub reason_of : Option GoError → Reason
unfolding reason_found find_error
reason_of none = ""
reason_of (some err) = reason_found (find_error err) err
