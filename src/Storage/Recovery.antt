-- ===== src/Storage/Recovery.antt =====
-- internal/storage/log_recovery.go: what opening a log does with the segments on disk.
pub mod Verify
pub mod Reopen
pub mod Crash
pub mod Listed
pub mod Unread
pub mod Restart
pub mod Replayed
mod Tests
use gokvx.Prelude.{
  ℕ, zero, suc, ◌+◌, ◌==◌, if◌then◌else◌, Bool, true, false, not, List, [], ◌∷◌, ◌++◌, length,
  Option, none, some, Result, ok, err,
}
use gokvx.Prelude.Bytes.{Bytes}
use gokvx.Prelude.Words.{add64, sub64}
use gokvx.Kverr.Error.{GoError, as_error, wrap, plain, joined}
use gokvx.Kverr.Reason.{reason_internal}
use gokvx.Storage.Segment.{Segment, segment_name, sort_segments, collect_segments}
use gokvx.Storage.Disk.{Disk, read_dir, read_file, truncate, fsync, call}
use gokvx.Storage.Log.{LogConfig, Log, World, create_segment, validate, context_error}
use gokvx.Storage.Scan.{
  Scanned, Damage, Verdict, healthy, torn_tail, corrupted, scan_segment, judge, damage_error,
}

failure : GoError → GoError
failure e = as_error (wrap reason_internal e "command log could not be opened")

corruption : GoError → GoError
corruption e = as_error (wrap reason_internal e "command log is corrupted; refusing to open it")

-- errors.Join of the outcomes of Sync and Close.
unfoldable pub join : Result GoError (Unit {0}) → Result GoError (Unit {0}) → Option GoError
join (ok _) (ok _) = none
join (err a) (ok _) = some a
join (ok _) (err b) = some b
join (err a) (err b) = some (joined a b)

-- truncateTail: cut, open, flush and close.
unfoldable pub truncate_tail : Bytes → ℕ → Disk → Result GoError (Unit {0}) × Disk
unfolding failure join
truncate_tail path offset d =
    let (r, d1) = truncate path offset d in
    elim r [
      | err e ↦ (err (failure e), d1)
      | ok _ ↦
          let (o, d2) = call d1 in
          elim o [
            | err e ↦ (err (failure e), d2)
            | ok _ ↦
                let (s, d3) = fsync path d2 in
                let (c, d4) = call d3 in
                elim (join s c) [ some e ↦ (err (failure e), d4) | none ↦ (ok tt, d4) ]
          ]
    ]

-- The end of verifySegment.
unfoldable pub settle : Segment → Scanned → Verdict → Disk → Result GoError (Segment × ℕ) × Disk
unfolding corruption truncate_tail
settle seg s healthy d = (ok (record seg { last = sub64 s.next 1 }, s.offset), d)
settle seg s (corrupted damage) d = (err (corruption (damage_error damage)), d)
settle seg s (torn_tail damage) d =
    let (r, d1) = truncate_tail seg.path s.offset d in
    elim r [
      | err e ↦ (err e, d1)
      | ok _ ↦ (ok (record seg { last = sub64 s.next 1 }, s.offset), d1)
    ]

-- verifySegment: the segment with `last` set, and its valid size.
unfoldable pub verify_segment : Segment → Bool → Disk → Result GoError (Segment × ℕ) × Disk
unfolding failure settle
verify_segment seg is_last d =
    let (r, d1) = read_file seg.path d in
    elim r [
      | err e ↦ (err (failure e), d1)
      | ok content ↦ let s = scan_segment seg.first content in settle seg s (judge is_last s) d1
    ]

unfoldable pub is_nil : List Segment → Bool
is_nil [] = true
is_nil (s ∷ ss) = false

-- The test on a segment and the one before it.
unfoldable pub follows : Option Segment → Segment → Bool
follows none seg = true
follows (some prev) seg = seg.first == add64 prev.last 1

-- What the loop of recover answers: the segments, and the size of the last one.
abbrev pub Verified : Type 0
Verified = Result GoError (List Segment × ℕ) × Disk

-- A verified segment in front of the outcome of the rest; `alone` is whether it is the last.
abbrev pub prepend : Segment → ℕ → Bool → Verified → Verified
prepend s size alone (err e, d) = (err e, d)
prepend s size alone (ok (segs, last_size), d) =
    (ok (s ∷ segs, if alone then size else last_size), d)

abbrev pub go_on :
    (Segment → Disk → Verified) → Bool → Result GoError (Segment × ℕ) × Disk → Verified
go_on more alone (err e, d) = (err e, d)
go_on more alone (ok (s, size), d) = prepend s size alone (more s d)

-- The loop of recover; `prev` is the segment before, with `last` set.
unfoldable pub verify_all : Option Segment → List Segment → Disk → Verified
unfolding follows is_nil corruption
verify_all prev [] d = (ok ([], 0), d)
verify_all prev (seg ∷ ss) d =
    let more = λ (s : Segment). verify_all (some s) ss in
    if not (follows prev seg)
    then (err (corruption (plain "segment starts at another index")), d)
    else go_on more (is_nil ss) (verify_segment seg (is_nil ss) d)

unfoldable pub last_segment : Segment → List Segment → Segment
last_segment s [] = s
last_segment s (t ∷ ss) = last_segment t ss

-- A log over these segments.
unfoldable pub opened : LogConfig → Segment → List Segment → ℕ → Log
opened cfg s ss size = record {
  cfg = cfg;
  segments = s ∷ ss;
  active = (last_segment s ss).path;
  active_size = size;
  last_index = (last_segment s ss).last;
  dirty = false;
  failed = none;
  closed = false;
}

-- startFirstSegment.
unfoldable pub start_first_segment : LogConfig → Disk → Result GoError Log × Disk
unfolding create_segment opened last_segment
start_first_segment cfg d =
    let path = segment_name 1 in
    let (r, d1) = create_segment path d in
    elim r [
      | err e ↦ (err e, d1)
      | ok _ ↦ (ok (opened cfg (record { first = 1; last = 0; path = path }) [] 0), d1)
    ]

-- The end of recover: the last segment is opened for appending.
unfoldable pub reopen : LogConfig → List Segment × ℕ → Disk → Result GoError Log × Disk
unfolding failure opened last_segment
reopen cfg ([], size) d = (err (plain ""), d)
reopen cfg (s ∷ ss, size) d =
    let (r, d1) = call d in
    elim r [ err e ↦ (err (failure e), d1) | ok _ ↦ (ok (opened cfg s ss size), d1) ]

abbrev pub then_reopen : LogConfig → Verified → Result GoError Log × Disk
then_reopen cfg (err e, d) = (err e, d)
then_reopen cfg (ok found, d) = reopen cfg found d

unfoldable pub list_segments : Disk → Result GoError (List Segment) × Disk
unfolding failure
list_segments d =
    let (r, d1) = read_dir d in
    elim r [
      | err e ↦ (err (failure e), d1)
      | ok es ↦ elim (collect_segments es) [
        | err e ↦ (err e, d1)
        | ok segs ↦ (ok (sort_segments segs), d1)
      ]
    ]

unfoldable pub recover_from : LogConfig → List Segment → Disk → Result GoError Log × Disk
unfolding start_first_segment
recover_from cfg [] d = start_first_segment cfg d
recover_from cfg (s ∷ ss) d = then_reopen cfg (verify_all none (s ∷ ss) d)

-- recover.
unfoldable pub recover : LogConfig → Disk → Result GoError Log × Disk
unfolding list_segments recover_from
recover cfg d =
    let (r, d1) = list_segments d in
    elim r [ err e ↦ (err e, d1) | ok segs ↦ recover_from cfg segs d1 ]

-- OpenLog.
unfoldable pub open_log : Option GoError → LogConfig → Disk → Result GoError Log × Disk
unfolding context_error validate failure recover
open_log ctx cfg d = elim (context_error ctx) [
  | some e ↦ (err e, d)
  | none ↦ elim (validate cfg) [
    | some e ↦ (err e, d)
    | none ↦
        let (r, d1) = call d in elim r [ err e ↦ (err (failure e), d1) | ok _ ↦ recover cfg d1 ]
  ]
]
