-- ===== src/Storage/Recovery/Restart.antt =====
-- A log that is opened again after its process ended, at any point of any schedule.
use gokvx.Prelude.{
  ℕ, ◌+◌, ◌≤◌, ◌<◌, ◌≡◌, ap, false, List, [], ◌∷◌, ◌++◌, length, map, none, ok, Result, err, ◌⊎◌,
}
use gokvx.Prelude.Bytes.{Bytes}
use gokvx.Prelude.Words.{u64_mod}
use gokvx.Storage.Record.{has_later_record}
use gokvx.Storage.Segment.{Segment}
use gokvx.Kverr.Error.{GoError}
use gokvx.Storage.Disk.{Disk, Files, call}
use gokvx.Storage.Stream.{Commands}
use gokvx.Storage.Log.{LogConfig, World, validate, context_error}
use gokvx.Storage.Log.Shape.{IsLog}
use gokvx.Storage.Recovery.{recover_from, recover, open_log, list_segments}
use gokvx.Storage.Recovery.Verify.{sound_disk}
use gokvx.Storage.Recovery.Listed.{unread, IsDirectory, list_segments-IsDirectory}
use gokvx.Storage.Recovery.Crash.{Recovers}
use gokvx.Storage.Recovery.Unread.{recover-unread}

-- OpenLog goes on with the segments that are listed.
open_log-listed :
    (cfg : LogConfig) (fs : Files) (folders : List Bytes) (ss : List Segment)
    → validate cfg ≡ none
    → list_segments (sound_disk fs folders) ≡ (ok ss, sound_disk fs folders)
    → open_log none cfg (sound_disk fs folders) ≡ recover_from cfg ss (sound_disk fs folders)
unfolding open_log context_error call recover
open_log-listed cfg fs folders ss v h =
    rw (open_log, v)
      (ap
        (λ (o : Result GoError (List Segment) × Disk). elim o.0 [
          | err e ↦ (err e, o.1)
          | ok segs ↦ recover_from cfg segs o.1
        ])
        h)

-- OpenLog is run again on the files of a log of the invariant, with indices from 1 on and below
-- 2^64, a valid configuration and no context that is done, on a disk whose calls succeed. The
-- directory holds the files of the log's segments under their names and no other entry, and no
-- intact later record stands in what a failed write left. Then the log opens, and holds every
-- command that it held, in order, and behind them nothing or the one command of that write.
pub restart :
    {w : World} {base : ℕ} {cmds : Commands} (cfg : LogConfig) (l : IsLog w base cmds)
    → IsDirectory w
    → validate cfg ≡ none
    → 1 ≤ base
    → base + length cmds + 1 < u64_mod
    → has_later_record l.junk (base + length cmds) ≡ false
    → Recovers (open_log none cfg (sound_disk w.disk.files [])) base cmds
      ⊎ ((c : Bytes) × Recovers
            (open_log none cfg (sound_disk w.disk.files []))
            base
            (cmds ++ c ∷ []))
restart {w} {base} {cmds} cfg l d v pos small quiet =
    rw
      (open_log-listed cfg w.disk.files [] (map unread w.log.segments) v
        (list_segments-IsDirectory l.shape small d))
      (recover-unread cfg [] l pos small quiet)
