-- ===== src/Config/Checks.antt =====
-- internal/config/validate.go: the checks that the rules are built from. A check answers the
-- violations that it adds to the list. The text functions of the standard library that they call
-- are a parameter.
use Prim.Native.String.{◌++◌}
use text.Mathlib.Text.{◌==◌}
use gokvx.Prelude.{
  ℕ, zero, suc, Bool, true, false, not, ◌||◌, ltb, if◌then◌else◌, ◌^◌, ◌*◌, ◌%◌, ◌-◌, ◌+◌, String,
  List, [], ◌∷◌, Option, none, some,
}
use gokvx.Prelude.Int.{ℤ, pos, negsuc}
use gokvx.Kverr.Error.{GoError, FieldViolation, as_error, new, with_violations}
use gokvx.Kverr.Reason.{reason_invalid_argument}
use gokvx.Config.Types.{Float, nan, infinite, negative_infinite, multiple}

-- What the checks use of net, net/url, strconv, strings and fmt. `none` is an error.
pub record Texts : Type 0 where
  -- net.SplitHostPort.
  pub split_host_port : String → Option (String × String)
  -- strconv.ParseUint(port, 10, 16).
  pub parse_port : String → Option ℕ
  -- url.Parse: the scheme and the host.
  pub parse_url : String → Option (String × String)
  -- net.ParseIP: whether the address is a loopback one.
  pub parse_ip : String → Option Bool
  -- strings.TrimSpace.
  pub trim_space : String → String
  -- strings.Cut: what is before and after, where the separator is found.
  pub cut : String → String → Option (String × String)
  -- The verb %q.
  pub quote : String → String
  -- strings.Compare(a, b) < 0.
  pub less : String → String → Bool

abbrev pub Violations : Type 0
Violations = List FieldViolation

-- s + t, of strings.
abbrev pub joined_text : String → String → String
joined_text s t = s ++ t

-- add, on an empty list.
unfoldable pub add : String → String → Violations
add key description = record { field = key; description = description } ∷ []

-- `if test { v.add(key, description) }`
unfoldable pub add_if : Bool → String → String → Violations
unfolding add
add_if test key description = if test then add key description else []

-- a < b
unfoldable pub ltz : ℤ → ℤ → Bool
ltz (pos a) (pos b) = ltb a b
ltz (pos a) (negsuc b) = false
ltz (negsuc a) (pos b) = true
ltz (negsuc a) (negsuc b) = ltb b a

-- Multiplication of int64 values by 10, which wraps around.
unfoldable pub signed64 : ℕ → ℤ
signed64 m = if ltb m (2 ^ 63) then pos m else negsuc (2 ^ 64 - m - 1)

unfoldable pub times_ten : ℤ → ℤ
unfolding signed64
times_ten (pos n) = signed64 (10 * n % 2 ^ 64)
times_ten (negsuc n) = signed64 ((2 ^ 64 - 10 * (n + 1) % 2 ^ 64) % 2 ^ 64)

unfoldable pub require_value : String → String → Violations
unfolding add_if
require_value key s = add_if (s == "") key "is required"

-- requirePositive and requireNonNegative at integers.
unfoldable pub require_positive : String → ℤ → Violations
unfolding add_if ltz
require_positive key x = add_if (not (ltz (pos 0) x)) key "must be greater than zero"

unfoldable pub require_non_negative : String → ℤ → Violations
unfolding add_if ltz
require_non_negative key x = add_if (ltz x (pos 0)) key "must not be negative"

-- x <= y and x < y at a float64 and a number. A NaN is in no order.
unfoldable pub float_le : Float → ℤ → Bool
unfolding ltz
float_le nan y = false
float_le infinite y = false
float_le negative_infinite y = true
float_le (multiple m) y = not (ltz y m)

unfoldable pub float_outside : Float → ℤ → ℤ → Bool
unfolding ltz
float_outside nan low high = false
float_outside infinite low high = true
float_outside negative_infinite low high = true
float_outside (multiple m) low high = ltz m low || ltz high m

-- requirePositive at a float64.
unfoldable pub require_positive_float : String → Float → Violations
unfolding add_if float_le
require_positive_float key x = add_if (float_le x (pos 0)) key "must be greater than zero"

unfoldable pub contains : String → List String → Bool
contains s [] = false
contains s (t ∷ ts) = t == s || contains s ts

-- strings.Join(names, ", ").
unfoldable pub join_names : List String → String
join_names [] = ""
join_names (s ∷ []) = s
join_names (s ∷ t ∷ ts) = s ++ (", " ++ join_names (t ∷ ts))

-- err: the list sorted by key, stably, in an error.
unfoldable pub insert_violation : Texts → FieldViolation → Violations → Violations
insert_violation texts x [] = x ∷ []
insert_violation texts x (y ∷ ys) =
    if texts.less y.field x.field then y ∷ insert_violation texts x ys else x ∷ y ∷ ys

unfoldable pub sort_violations : Texts → Violations → Violations
unfolding insert_violation
sort_violations texts [] = []
sort_violations texts (x ∷ xs) = insert_violation texts x (sort_violations texts xs)

unfoldable pub err_of : Texts → String → Violations → Option GoError
unfolding sort_violations
err_of texts message [] = none
err_of texts message (x ∷ xs) = some (
    as_error
      (with_violations (new reason_invalid_argument message) (sort_violations texts (x ∷ xs))))

unfoldable pub require_one_of : Texts → String → String → List String → Violations
unfolding add contains join_names
require_one_of texts key value allowed =
    if contains value allowed
    then []
    else add key
        ("must be one of " ++ (join_names allowed ++ (" (got " ++ (texts.quote value ++ ")"))))

-- requireHostPort: the test on the port.
unfoldable pub check_port : String → Option ℕ → Violations
unfolding add
check_port key none = add key "must have a port between 1 and 65535"
check_port key (some zero) = add key "must have a port between 1 and 65535"
check_port key (some (suc n)) = []

unfoldable pub require_host_port : Texts → String → String → Violations
unfolding add check_port
require_host_port texts key addr = elim (texts.split_host_port addr) [
  | none ↦ add key "must be an address of the form host:port"
  | some (host, port) ↦ check_port key (texts.parse_port port)
]

-- requireHTTPSURL.
unfoldable pub require_https_url : Texts → String → String → Violations
unfolding add add_if
require_https_url texts key s =
    if s == "" then add key "is required" else elim (texts.parse_url s) [
      | none ↦ add key "must be an absolute https:// URL"
      | some (scheme, host) ↦
          add_if (not (scheme == "https") || host == "") key "must be an absolute https:// URL"
    ]

-- isLoopback.
unfoldable pub host_is_loopback : Texts → String → Bool
host_is_loopback texts host =
    if host == "localhost" then true else elim (texts.parse_ip host) [ none ↦ false | some b ↦ b ]

unfoldable pub is_loopback : Texts → String → Bool
unfolding host_is_loopback
is_loopback texts addr = elim (texts.split_host_port addr) [
  | none ↦ false
  | some (host, port) ↦ host_is_loopback texts host
]

-- requireEntries.
unfoldable pub empty_entry : Texts → String → List String → Violations
unfolding add
empty_entry texts key [] = []
empty_entry texts key (s ∷ ss) =
    if texts.trim_space s == ""
    then add key "must not contain empty entries"
    else empty_entry texts key ss

unfoldable pub require_entries : Texts → String → List String → Violations
unfolding add empty_entry
require_entries texts key [] = add key "must have at least one entry"
require_entries texts key (s ∷ ss) = empty_entry texts key (s ∷ ss)
