-- ===== src/Lib.antt =====
-- gokvx: a key-value store whose node appends every command to a log on disk before it is applied.
--
-- The parts, and the files that model them:
--   Kverr     internal/kverr: kinds and reasons of errors (Kind, Reason), the error type, its
--             constructors and the classification of chains of errors (Error). Every other part
--             reports its failures as such errors.
--   Storage   internal/storage: Record is record.go (encodeRecord, decodeRecord, hasLaterRecord);
--             Segment is segment.go (names and listing of segment files); Log is log.go (Append,
--             rotate, sync, syncIfDirty, Close, Replay, the validation of LogConfig); Scan is the loop of
--             verifySegment and Recovery the rest of log_recovery.go, with OpenLog of log.go; Crc is
--             CRC-32C as hash/crc32 computes it; Version is version.go (PrepareDataDir).
--   Storage.Engine  internal/storage/engine.go: batches, and the interfaces Engine and Iterator as a
--             record of operations with a record of their laws while the process runs (Contract), and
--             of what Apply promises of a crash (CrashContract); Mem is
--             storagetest/memengine.go, Pebble is pebble.go, and Checks is storagetest/contract.go.
--   Shard     internal/shard/slot.go: the slot of a key, and the brace rule of HashInput.
--   Config    internal/config: the sections of a configuration (Types), the built-in one (Defaults:
--             defaults.go), the checks of validate.go (Checks), the rules of rules.go (Rules), and
--             the warnings and the redacted copy of report.go (Announce), and the sources that
--             load.go puts on top of the defaults (Loading).
--   Clock     internal/clock: the fake clock of clocktest/fake.go.
--   Prelude   what the parts share: tests on numbers, lists, results, bytes, 64-bit words.
--
-- The disk (Storage.Disk) is the directory of the log as the Go package os presents it: files with
-- their content, how much of it was flushed, and whether the directory entry was. A list of faults
-- says which of the next calls fail, and after how many bytes a write does, so a theorem for all
-- disks is one for all faults. A method of the log runs under its mutex, so it is one step from a
-- world, the log and the disk, to the next; a schedule is a list of such steps (Storage.Log.Runs),
-- with the tick of the background syncer as one of them. A context is what its Err method returns
-- when it is asked.
--
-- Results on OpenLog of an old log name what the directory holds (Storage.Recovery.Listed.IsDirectory):
-- the files of the log's segments and nothing else. A rotation whose directory flush fails leaves an
-- empty file more, which these results leave out. Results on recover_from take the listed segments.
--
-- Bounds: indices are 64-bit and their arithmetic wraps (add64, sub64); theorems on logs ask that the
-- indices in use stay below 2^64. Commands are at most maxCommandSize long, which Append checks.
-- Fuel: the scan of a segment has its length in bytes as fuel; each record takes at least 16 bytes,
-- and the result on scans says that the fuel is never used up.
--
-- The data directory (Storage.Version) is such a disk too. A cut of the power there may lose what was
-- not flushed: the end of a file's content, a new entry, or a change of a file's name.
--
-- An engine's contract speaks of what the engine holds for each key; the implementations and the
-- checks of the tests meet only through it. Pebble is a parameter (Storage.Engine.Pebble.Library),
-- and what it documents is a record of hypotheses (Documented), with what it may hold when it is
-- opened again after a crash. MemEngine is gone with its process, so nothing is said of it there.
-- The loops of the checks over an iterator stop after ten calls of Next, more than a check makes on
-- an engine that keeps the contract. The inner loop of Fake.Advance has the distance to the new time
-- as fuel; an interval is at least 1.
--
-- The checks of a configuration call text functions of net, net/url, strconv, strings and fmt, which
-- are a parameter (Config.Checks.Texts), and so is net/url for Redacted (Config.Announce.Urls); a
-- float64 is a multiple of 2^-1074, infinite or NaN.
--
-- Texts that only inform (the offset in a message, the logger) are left out or fixed, and a byte slice
-- that is copied is the same as one that is shared. Not modelled: the generated API under gen, the
-- commands under cmd and internal/observability, which call libraries or print; the system's clock;
-- LogValue and YAML of internal/config/report.go, RegisterFlags of load.go, and the collection of keys
-- in keys.go, which work by reflection. koanf is a parameter of the model of Load.
pub mod Prelude
pub mod Config
pub mod Kverr
pub mod Storage
pub mod Shard
pub mod Clock
