-- ===== src/Storage/Log.antt =====
-- internal/storage/log.go: the command log. Each method runs under the log's mutex, so it is one
-- step from a world, the log and the disk, to the next. `active` names the file that is open for
-- appending; the test hook `onSync` and the logger are left out.
pub mod Replay
pub mod Shape
pub mod Steps
pub mod Append
pub mod Rotate
pub mod Total
pub mod Runs
use gokvx.Prelude.{
  ℕ, zero, suc, String, ◌+◌, ◌-◌, ◌<◌, ltb, leb, ◌==◌, if◌then◌else◌, not, ◌&&◌, ◌||◌, Bool, true,
  false, List, [], ◌∷◌, ◌++◌, length, Option, none, some, Result, ok, err, min,
}
use gokvx.Prelude.Bytes.{Bytes}
use gokvx.Prelude.Words.{add64, sub64}
use gokvx.Kverr.Error.{
  GoError, FieldViolation, plain, joined, as_error, new, wrap, with_violations, reason_of,
}
use gokvx.Kverr.Reason.{reason_internal, reason_invalid_argument}
use gokvx.Storage.Record.{encode_record, max_command_size}
use gokvx.Storage.Segment.{Segment, segment_name}
use gokvx.Storage.Disk.{Disk, write, fsync, call, create, sync_dir}

-- config.FsyncPolicy is a string, so a value that names no policy is possible.
pub data FsyncPolicy : Type 0 where
  always interval os unknown : FsyncPolicy

-- `dir_set` is whether Dir is not empty. Sizes and durations below zero are refused as zero is, so
-- one number stands for them.
pub record LogConfig : Type 0 where
  pub dir_set : Bool
  pub segment_bytes : ℕ
  pub fsync_policy : FsyncPolicy
  pub fsync_interval : ℕ

pub record Log : Type 0 where
  pub cfg : LogConfig
  pub segments : List Segment
  pub active : Bytes
  pub active_size : ℕ
  pub last_index : ℕ
  pub dirty : Bool
  pub failed : Option GoError
  pub closed : Bool

pub record World : Type 0 where
  pub log : Log
  pub disk : Disk

abbrev pub Outcome : Type 0 → Type 0
Outcome A = Result GoError A × World

-- `if err := step; err != nil { return err }`, and go on from the world that the step left.
abbrev pub and_then : {A : Type 0} → Outcome (Unit {0}) → (World → Outcome A) → Outcome A
and_then (ok _, w) k = k w
and_then (err e, w) k = (err e, w)

violation : String → String → FieldViolation
violation f d = record { field = f; description = d }

-- LogConfig.Validate: the problems found.
unfoldable pub problems : LogConfig → List FieldViolation
unfolding violation
problems c =
    (if c.dir_set then [] else violation "Dir" "is required" ∷ [])
    ++ ((if c.segment_bytes == 0
          then violation "SegmentBytes" "must be greater than zero" ∷ []
          else [])
        ++ elim c.fsync_policy [
          | always ↦ []
          | os ↦ []
          | interval ↦
              if c.fsync_interval == 0
              then violation "FsyncInterval" "must be greater than zero" ∷ []
              else []
          | unknown ↦ violation "Fsync" "must be always, interval, or os" ∷ []
        ])

unfoldable pub validate : LogConfig → Option GoError
unfolding problems
validate c = elim (problems c) [
  | [] ↦ none
  | p ∷ ps ↦ some (
      as_error (
        with_violations (new reason_invalid_argument "command log configuration is invalid")
          (p ∷ ps)))
]

-- contextError, on what ctx.Err() returned.
unfoldable pub context_error : Option GoError → Option GoError
context_error none = none
context_error (some e) = some (as_error (wrap (reason_of (some e)) e ""))

internal : GoError → String → GoError
internal e message = as_error (wrap reason_internal e message)

err_closed : GoError
err_closed = plain "closed"

-- writable.
unfoldable pub writable : Log → Option GoError
unfolding internal err_closed
writable l =
    if l.closed then some (internal err_closed "command log is closed") else elim l.failed [
      | some e ↦ some (internal e "command log is unusable after an earlier failure")
      | none ↦ none
    ]

-- sync.
unfoldable pub sync : World → Outcome (Unit {0})
unfolding internal
sync w =
    let (r, d) = fsync w.log.active w.disk in
    elim r [
      | err e ↦
          let failure = internal e "command log fsync failed" in
          (err failure, record { log = record w.log { failed = some failure }; disk = d })
      | ok _ ↦ (ok tt, record { log = record w.log { dirty = false }; disk = d })
    ]

-- createSegment. When the directory cannot be flushed, the new file is closed and left behind.
unfoldable pub create_segment : Bytes → Disk → Result GoError (Unit {0}) × Disk
unfolding internal
create_segment path d =
    let (r, d1) = create path d in
    elim r [
      | err e ↦ (err (internal e "command log segment could not be created"), d1)
      | ok _ ↦
          let (s, d2) = sync_dir d1 in
          elim s [
            | err e ↦ (err (internal e "directory could not be flushed"), (call d2).1)
            | ok _ ↦ (ok tt, d2)
          ]
    ]

-- The part of rotate after the flush.
unfoldable pub start_segment : ℕ → World → Outcome (Unit {0})
unfolding internal create_segment
start_segment next w =
    let (r, d1) = call w.disk in
    elim r [
      | err e ↦ (err (internal e "command log segment could not be closed"), record w { disk = d1 })
      | ok _ ↦
          let path = segment_name next in
          let (s, d2) = create_segment path d1 in
          elim s [
            | err e ↦ (err e, record w { disk = d2 })
            | ok _ ↦ (
              ok tt,
              record {
                log = record w.log {
                  segments =
                      w.log.segments
                      ++ (record { first = next; last = sub64 next 1; path = path } ∷ []);
                  active = path;
                  active_size = 0;
                };
                disk = d2;
              },
            )
          ]
    ]

-- rotate.
unfoldable pub rotate : ℕ → World → Outcome (Unit {0})
unfolding start_segment
rotate next w = if w.log.dirty then and_then (sync w) (start_segment next) else start_segment next w

-- l.segments[len(l.segments)-1].last = index
unfoldable pub set_last : ℕ → List Segment → List Segment
set_last index [] = []
set_last index (s ∷ []) = record s { last = index } ∷ []
set_last index (s ∷ t ∷ ss) = s ∷ set_last index (t ∷ ss)

-- The end of Append: the record counts.
unfoldable pub commit : ℕ → World → Outcome ℕ
unfolding set_last
commit index w = (
  ok index,
  record w { log = record w.log { last_index = index; segments = set_last index w.log.segments } },
)

-- Append, from the write on.
unfoldable pub write_record : ℕ → Bytes → World → Outcome ℕ
unfolding commit internal
write_record index bytes w =
    let (r, d) = write w.log.active bytes w.disk in
    elim r [
      | err e ↦
          let failure = internal e "command log write failed" in
          (err failure, record { log = record w.log { failed = some failure }; disk = d })
      | ok _ ↦
          let w1 : World = record {
            log = record w.log { active_size = w.log.active_size + length bytes; dirty = true };
            disk = d;
          } in
          elim w.log.cfg.fsync_policy [
            | always ↦ and_then (sync w1) (commit index)
            | _ ↦ commit index w1
          ]
    ]

-- Whether a record of `n` bytes starts a new segment.
unfoldable pub must_rotate : ℕ → Log → Bool
must_rotate n l = ltb 0 l.active_size && ltb l.cfg.segment_bytes (l.active_size + n)

-- A rotation that failed makes the log refuse later appends.
abbrev pub mark_failed : Outcome (Unit {0}) → Outcome (Unit {0})
mark_failed (ok _, w) = (ok tt, w)
mark_failed (err e, w) = (err e, record w { log = record w.log { failed = some e } })

-- Append, under the mutex.
unfoldable pub append_locked : Bytes → World → Outcome ℕ
unfolding writable must_rotate write_record rotate
append_locked command w = elim (writable w.log) [
  | some e ↦ (err e, w)
  | none ↦
      let index = add64 w.log.last_index 1 in
      let bytes = encode_record index command in
      if must_rotate (length bytes) w.log
      then and_then (mark_failed (rotate index w)) (write_record index bytes)
      else write_record index bytes w
]

-- Append. `ctx` is what ctx.Err() returns on entry.
unfoldable pub append : Option GoError → Bytes → World → Outcome ℕ
unfolding append_locked context_error
append ctx command w = elim (context_error ctx) [
  | some e ↦ (err e, w)
  | none ↦
      if ltb max_command_size (length command)
      then (err (as_error (new reason_invalid_argument "command exceeds the record limit")), w)
      else append_locked command w
]

-- syncIfDirty, which the background syncer calls on every tick.
unfoldable pub sync_if_dirty : World → World
unfolding sync
sync_if_dirty w =
    if not w.log.dirty || (elim w.log.failed [ none ↦ false | some e ↦ true ] || w.log.closed)
    then w
    else (sync w).1

-- Close takes the mutex twice: first it marks the log closed, and answers whether it was.
unfoldable pub close_begin : World → Bool × World
close_begin w = (w.log.closed, record w { log = record w.log { closed = true } })

-- The flush of Close; its error is kept while the file is closed.
unfoldable pub close_sync : World → Outcome (Unit {0})
unfolding sync
close_sync w =
    if w.log.dirty && elim w.log.failed [ none ↦ true | some e ↦ false ] then sync w else (ok tt, w)

-- Then, once the syncer has ended, it flushes and closes the file.
unfoldable pub close_finish : World → Outcome (Unit {0})
unfolding close_sync internal
close_finish w =
    let (s, w1) = close_sync w in
    let (r, d) = call w1.disk in
    elim r [
      | ok _ ↦ (s, record w1 { disk = d })
      | err e ↦ (
        err (internal (elim s [ ok _ ↦ e | err f ↦ joined f e ]) "command log could not be closed"),
        record w1 { disk = d },
      )
    ]
