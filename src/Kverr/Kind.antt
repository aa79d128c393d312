-- ===== src/Kverr/Kind.antt =====
-- internal/kverr/kind.go: the kinds of errors. A Kind is a uint8, so a value outside the enumeration
-- is possible, and the code says what it means.
use gokvx.Prelude.{
  ℕ, ◌/◌, ◌%◌, leb, ◌==◌, if◌then◌else◌, Bool, ◌||◌, String, List, [], ◌∷◌, none, some, length,
  get_elem?,
}
use Prim.Native.String.{◌++◌}

abbrev pub kind_internal : ℕ
kind_internal = 0

abbrev pub kind_invalid_argument : ℕ
kind_invalid_argument = 1

abbrev pub kind_not_found : ℕ
kind_not_found = 2

abbrev pub kind_already_exists : ℕ
kind_already_exists = 3

abbrev pub kind_permission_denied : ℕ
kind_permission_denied = 4

abbrev pub kind_unauthenticated : ℕ
kind_unauthenticated = 5

abbrev pub kind_resource_exhausted : ℕ
kind_resource_exhausted = 6

abbrev pub kind_failed_precondition : ℕ
kind_failed_precondition = 7

abbrev pub kind_aborted : ℕ
kind_aborted = 8

abbrev pub kind_out_of_range : ℕ
kind_out_of_range = 9

abbrev pub kind_unimplemented : ℕ
kind_unimplemented = 10

abbrev pub kind_unavailable : ℕ
kind_unavailable = 11

abbrev pub kind_deadline_exceeded : ℕ
kind_deadline_exceeded = 12

abbrev pub kind_canceled : ℕ
kind_canceled = 13

-- The array literal, by the order of its keys.
abbrev kind_names : List String
kind_names =
    "INTERNAL" ∷ "INVALID_ARGUMENT" ∷ "NOT_FOUND" ∷ "ALREADY_EXISTS" ∷ "PERMISSION_DENIED"
    ∷ "UNAUTHENTICATED" ∷ "RESOURCE_EXHAUSTED" ∷ "FAILED_PRECONDITION" ∷ "ABORTED" ∷ "OUT_OF_RANGE"
    ∷ "UNIMPLEMENTED" ∷ "UNAVAILABLE" ∷ "DEADLINE_EXCEEDED" ∷ "CANCELED" ∷ []

-- strconv.Itoa of a uint8: at most three digits.
digit : ℕ → String
digit n =
    elim (get_elem? {A = String} ("0" ∷ "1" ∷ "2" ∷ "3" ∷ "4" ∷ "5" ∷ "6" ∷ "7" ∷ "8" ∷ "9" ∷ [])
      n) [ some s ↦ s | none ↦ "" ]

unfoldable pub itoa : ℕ → String
unfolding digit
itoa n =
    if leb 100 n
    then digit (n / 100 % 10) ++ (digit (n / 10 % 10) ++ digit (n % 10))
    else if leb 10 n
    then digit (n / 10) ++ digit (n % 10)
    else digit n

-- Kind.String. An index in range always has a name.
unfoldable pub kind_string : ℕ → String
unfolding itoa
kind_string k =
    if leb (length kind_names) k
    then "Kind(" ++ (itoa k ++ ")")
    else elim (get_elem? kind_names k) [ some s ↦ s | none ↦ "" ]

-- Kind.IsClientFault: the first case of the switch; every other case returns false.
unfoldable pub is_client_fault : ℕ → Bool
is_client_fault k =
    k == kind_invalid_argument
    || k == kind_not_found
    || k == kind_already_exists
    || k == kind_permission_denied
    || k == kind_unauthenticated
    || k == kind_out_of_range
    || k == kind_unimplemented
    || k == kind_canceled
