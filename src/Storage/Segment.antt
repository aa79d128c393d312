-- ===== src/Storage/Segment.antt =====
-- internal/storage/segment.go: segments and the names of their files.
pub mod Names
pub mod Sorted
use gokvx.Prelude.{
  ℕ, zero, suc, ◌+◌, ◌-◌, ◌*◌, ◌/◌, ◌%◌, ◌^◌, ltb, leb, ◌==◌, if◌then◌else◌, not, ◌&&◌, ◌||◌, Bool,
  true, false, List, [], ◌∷◌, ◌++◌, length, take, drop, Option, none, some, Result, ok, err, map,
}
use gokvx.Prelude.Bytes.{Bytes, bytes_eq}
use gokvx.Kverr.Error.{GoError, as_error, new}
use gokvx.Kverr.Reason.{reason_internal}

-- `path` is the file's name in the log directory: every path of the log is that directory joined
-- with a name.
pub record Segment : Type 0 where
  pub first : ℕ
  pub last : ℕ
  pub path : Bytes

-- ".log"
abbrev pub segment_suffix : Bytes
segment_suffix = b'.' ∷ b'l' ∷ b'o' ∷ b'g' ∷ []

abbrev pub segment_digits : ℕ
segment_digits = 20

-- The `n` last decimal digits of `v`, as ASCII.
unfoldable pub decimal : ℕ → ℕ → Bytes
decimal zero v = []
decimal (suc n) v = decimal n (v / 10) ++ ((b'0' + v % 10) ∷ [])

-- segmentName. A uint64 has at most 20 digits, so the padded number has exactly 20.
unfoldable pub segment_name : ℕ → Bytes
segment_name first = decimal segment_digits first ++ segment_suffix

-- strings.CutSuffix(name, segmentSuffix).
unfoldable pub cut_suffix : Bytes → Option Bytes
cut_suffix name =
    let digits = take (length name - length segment_suffix) name in
    if bytes_eq (drop (length name - length segment_suffix) name) segment_suffix
    then some digits
    else none

unfoldable pub is_digit : ℕ → Bool
is_digit b = leb b'0' b && leb b b'9'

-- The digits of a number in base 10, most significant first; none at a byte that is no digit.
unfoldable pub digits_value : ℕ → Bytes → Option ℕ
unfolding is_digit
digits_value acc [] = some acc
digits_value acc (b ∷ bs) =
    let rest = digits_value (acc * 10 + (b - b'0')) bs in if is_digit b then rest else none

-- strconv.ParseUint(digits, 10, 64), whose errors are alike here.
unfoldable pub parse_uint : Bytes → Option ℕ
unfolding digits_value
parse_uint [] = none
parse_uint (b ∷ bs) = elim (digits_value 0 (b ∷ bs)) [
  | none ↦ none
  | some v ↦ if ltb v (2 ^ 64) then some v else none
]

-- parseSegmentName, after the suffix is cut.
unfoldable pub parse_digits : Bytes → Bytes → Option ℕ
unfolding parse_uint
parse_digits name digits =
    if not (length digits == segment_digits) then none else elim (parse_uint digits) [
      | none ↦ none
      | some first ↦ if bytes_eq (segment_name first) name then some first else none
    ]

unfoldable pub parse_segment_name : Bytes → Option ℕ
unfolding parse_digits cut_suffix
parse_segment_name name = elim (cut_suffix name) [
  | none ↦ none
  | some digits ↦ parse_digits name digits
]

-- A directory entry: its name, and whether it is a regular file.
abbrev pub Entry : Type 0
Entry = Bytes × Bool

unexpected_entry : GoError
unexpected_entry =
    as_error (new reason_internal "command log directory contains an unexpected entry")

-- The loop of listSegments over the entries. `last` is not yet known.
unfoldable pub collect_segments : List Entry → Result GoError (List Segment)
unfolding unexpected_entry
collect_segments [] = ok []
collect_segments ((name, regular) ∷ es) =
    let rest = collect_segments es in
    elim (parse_segment_name name) [
      | none ↦ err unexpected_entry
      | some first ↦ if not regular then err unexpected_entry else elim rest [
        | err e ↦ err e
        | ok segs ↦ ok (record { first = first; last = 0; path = name } ∷ segs)
      ]
    ]

-- slices.SortFunc by `first`, as an insertion sort: the names in a directory differ, so no two
-- segments have the same first index and every sort gives this order.
unfoldable pub insert_segment : Segment → List Segment → List Segment
insert_segment s [] = s ∷ []
insert_segment s (t ∷ ts) = if ltb t.first s.first then t ∷ insert_segment s ts else s ∷ t ∷ ts

unfoldable pub sort_segments : List Segment → List Segment
unfolding insert_segment
sort_segments [] = []
sort_segments (s ∷ ss) = insert_segment s (sort_segments ss)
