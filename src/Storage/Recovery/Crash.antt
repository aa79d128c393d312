-- ===== src/Storage/Recovery/Crash.antt =====
-- Opening the log after a crash that cut the last record short.
use gokvx.Prelude.{
  ℕ, ◌+◌, ◌≤◌, ◌<◌, ◌≡◌, refl, ap, ◌∙◌, sym, true, false, List, [], ◌∷◌, ◌++◌, length,
  length-append, take, take-append, none, some, arith, Result, ok, err, All, All-append, append-nil,
}
use gokvx.Prelude.Bytes.{Bytes}
use gokvx.Prelude.Words.{u64_mod}
use gokvx.Kverr.Error.{GoError}
use gokvx.Storage.Record.{encode_record, has_later_record}
use gokvx.Storage.Segment.{Segment}
use gokvx.Storage.Disk.{File, Files, Disk, file_of, update, flush, cut}
use gokvx.Storage.Disk.Frame.{
  KeepsAt, KeepsAt-trans, KeepsAt-refl, KeepsAt-update_ne, file_of-update_self,
}
use gokvx.Storage.Stream.{Commands, Fits, encode_all}
use gokvx.Storage.Log.{Log, LogConfig}
use gokvx.Storage.Log.Shape.{concat, Apart, PartOf-nil, IsLog}
use gokvx.Storage.Recovery.{verify_segment, recover_from, follows}
use gokvx.Storage.Recovery.Verify.{
  sound_disk, counted, trimmed, verify_intact, verify_torn, verify_segment_refused,
}
use gokvx.Storage.Recovery.Reopen.{
  Stored, AllStored, all_counted, all_verified, recover_verified, log_over, reopen_last,
  IsSealed-counted, Apart-counted, All-Fits, prepend_all-ok, prepend_all-err, alone_ok, alone_err,
}

-- The files of a log as a crash leaves them: the segments `sealed` hold the records of `batches`,
-- and the last segment those of `batch`, with `part` behind them.
pub record OnDisk (fs : Files) (base : ℕ) (sealed : List Segment) (batches : List Commands)
    (seg : Segment) (batch : Commands) (part : Bytes) : Type 0 where
  pub stored : AllStored fs base sealed batches
  pub last : Stored fs seg batch part
  pub apart : Apart seg.path sealed
  pub first_eq : seg.first ≡ base + length (concat batches)
  pub fits : All Fits batch
  pub pos : 1 ≤ base
  pub small : seg.first + length batch < u64_mod

-- A part of the record with index `next`, which is more than nothing and less than the record.
pub record TornPart (next : ℕ) (part : Bytes) : Type 0 where
  pub command : Bytes
  pub size : ℕ
  pub fits : Fits command
  pub some_of : 0 < size
  pub less : size < length (encode_record next command)
  pub part_eq : part ≡ take size (encode_record next command)

KeepsAt-trimmed :
    (p : Bytes) (n : ℕ) (fs : Files) (ss : List Segment)
    → Apart p ss
    → All (λ s. KeepsAt s.path fs (trimmed p n fs)) ss
KeepsAt-trimmed p n fs [] h = tt
KeepsAt-trimmed p n fs (s ∷ ss) h = (
  KeepsAt-trans s.path fs (update p (cut n) fs) (trimmed p n fs)
      (KeepsAt-update_ne p s.path (cut n) fs h.0)
      (KeepsAt-update_ne p s.path flush (update p (cut n) fs) h.0),
  KeepsAt-trimmed p n fs ss h.1,
)

All-KeepsAt_refl : (fs : Files) (ss : List Segment) → All (λ s. KeepsAt s.path fs fs) ss
All-KeepsAt_refl fs [] = tt
All-KeepsAt_refl fs (s ∷ ss) = (KeepsAt-refl s.path fs, All-KeepsAt_refl fs ss)

module _ {fs : Files} {base : ℕ} {sealed : List Segment} {batches : List Commands} {seg : Segment}
    {batch : Commands} {part : Bytes} (cfg : LogConfig) (folders : List Bytes)
    (o : OnDisk fs base sealed batches seg batch part) where
  All-commands : All Fits (concat batches ++ batch)
  All-commands =
      All-append Fits (concat batches) batch (All-Fits fs base sealed batches o.stored) o.fits

  -- The log over the verified segments, on files that keep the sealed ones.
  opened-IsLog :
      (fs' : Files) (f : File)
      → All (λ s. KeepsAt s.path fs fs') sealed
      → file_of seg.path fs' ≡ some f
      → f.content ≡ encode_all seg.first batch
      → f.linked ≡ true
      → IsLog
          (record {
            log =
                log_over cfg
                  (all_counted sealed batches)
                  (counted seg batch)
                  (length (encode_all seg.first batch));
            disk = sound_disk fs' folders;
          })
          base
          (concat batches ++ batch)
  opened-IsLog fs' f keeps at content linked = record {
    junk = [];
    clean = λ h. refl;
    shape = record {
      sealed = all_counted sealed batches;
      batches = batches;
      current = counted seg batch;
      batch = batch;
      segments_eq = refl;
      old = IsSealed-counted fs fs' base sealed batches o.stored keeps o.pos;
      cur = record {
        file = f;
        at = at;
        content = content ∙ sym (append-nil (encode_all seg.first batch));
        linked = linked;
        count = omega (arith, o.pos, o.first_eq);
      };
      apart = Apart-counted seg.path sealed batches o.apart;
      cur_first = o.first_eq;
      commands_eq = refl;
      fits = All-commands;
      last_eq = rw length-append (omega (arith, o.pos, o.first_eq));
      active_eq = refl;
      size_eq = λ h. ap length (sym content);
      part = PartOf-nil (base + length (concat batches ++ batch));
    };
  }

  recovered :
      (fs' : Files)
      → verify_segment seg true (sound_disk fs folders)
        ≡ (ok (counted seg batch, length (encode_all seg.first batch)), sound_disk fs' folders)
      → recover_from cfg (sealed ++ seg ∷ []) (sound_disk fs folders) ≡ (
        ok (
            log_over cfg
              (all_counted sealed batches)
              (counted seg batch)
              (length (encode_all seg.first batch))),
        sound_disk fs' folders,
      )
  recovered fs' v =
      recover_verified cfg sealed seg (sound_disk fs folders) (
        all_verified fs folders seg _ (λ prev f. alone_ok prev seg _ _ _ _ v f) none base sealed
          batches o.stored o.first_eq o.pos (omega (arith, o.small)) (λ s q. unfold follows in refl)
        ∙ prepend_all-ok fs base sealed batches (counted seg batch ∷ [])
            (length (encode_all seg.first batch)) (sound_disk fs' folders) o.stored)
      ∙ reopen_last cfg (all_counted sealed batches) (counted seg batch)
          (length (encode_all seg.first batch)) fs' folders

-- Recovery answers a log that holds the commands `cmds`, has not failed, and is open.
pub record Recovers (o : Result GoError Log × Disk) (base : ℕ) (cmds : Commands) : Type 0 where
  pub log : Log
  pub disk : Disk
  pub answer : o ≡ (ok log, disk)
  pub holds : IsLog (record { log = log; disk = disk }) base cmds
  pub unfailed : log.failed ≡ none
  pub unclosed : log.closed ≡ false

-- Whole segments, on a disk whose calls succeed: recovery succeeds, holds every command, and leaves
-- the disk exactly as it was.
pub recover-intact :
    {fs : Files} {base : ℕ} {sealed : List Segment} {batches : List Commands} {seg : Segment}
    {batch : Commands} (cfg : LogConfig) (folders : List Bytes)
    → OnDisk fs base sealed batches seg batch []
    → Recovers
        (recover_from cfg (sealed ++ seg ∷ []) (sound_disk fs folders))
        base
        (concat batches ++ batch)
      × ((recover_from cfg (sealed ++ seg ∷ []) (sound_disk fs folders)).1 ≡ sound_disk fs folders)
recover-intact {fs} {base} {sealed} {batches} {seg} {batch} cfg folders o = (
  record {
    log = _;
    disk = sound_disk fs folders;
    answer = same;
    holds =
        opened-IsLog cfg folders o fs o.last.file (All-KeepsAt_refl fs sealed) o.last.at content
          o.last.linked;
    unfailed = refl;
    unclosed = refl;
  },
  ap (λ r. r.1) same,
)
  where
    content : o.last.file.content ≡ encode_all seg.first batch
    content = o.last.content ∙ append-nil (encode_all seg.first batch)

    same : recover_from cfg (sealed ++ seg ∷ []) (sound_disk fs folders) ≡ (
      ok (
          log_over cfg
            (all_counted sealed batches)
            (counted seg batch)
            (length (encode_all seg.first batch))),
      sound_disk fs folders,
    )
    same = recovered cfg folders o fs (
        verify_intact seg batch fs folders o.last.file o.last.at o.fits
          (omega (arith, o.pos, o.first_eq)) o.small true content)

-- A last record that is cut short, at any byte, with no intact later record in what is left of it:
-- recovery succeeds and holds exactly the whole records.
pub recover-torn :
    {fs : Files} {base : ℕ} {sealed : List Segment} {batches : List Commands} {seg : Segment}
    {batch : Commands} {part : Bytes} (cfg : LogConfig) (folders : List Bytes)
    → OnDisk fs base sealed batches seg batch part
    → TornPart (seg.first + length batch) part
    → has_later_record part (seg.first + length batch) ≡ false
    → Recovers
        (recover_from cfg (sealed ++ seg ∷ []) (sound_disk fs folders))
        base
        (concat batches ++ batch)
recover-torn {fs} {base} {sealed} {batches} {seg} {batch} {part} cfg folders o t quiet = record {
  log = _;
  disk = sound_disk (trimmed seg.path size fs) folders;
  answer = recovered cfg folders o (trimmed seg.path size fs) (
      verify_torn seg batch fs folders o.last.file o.last.at o.fits
        (omega (arith, o.pos, o.first_eq)) o.small t.size t.command t.fits t.some_of t.less
        (rw (← t.part_eq) quiet)
        (o.last.content ∙ ap (λ b. encode_all seg.first batch ++ b) t.part_eq));
  holds =
      opened-IsLog cfg folders o (trimmed seg.path size fs) (flush (cut size o.last.file))
        (KeepsAt-trimmed seg.path size fs sealed o.apart)
        (file_of-update_self seg.path flush (update seg.path (cut size) fs) (cut size o.last.file)
          (file_of-update_self seg.path (cut size) fs o.last.file o.last.at))
        (unfold flush cut in
          ap (take size) o.last.content ∙ take-append size (encode_all seg.first batch) part refl)
        (unfold flush cut in o.last.linked);
  unfailed = refl;
  unclosed = refl;
}
  where
    size : ℕ
    size = length (encode_all seg.first batch)

-- A last record that is cut short, and an intact later record in what is left of it: recovery
-- refuses to open the log, and changes no file.
pub recover_refuses :
    {fs : Files} {base : ℕ} {sealed : List Segment} {batches : List Commands} {seg : Segment}
    {batch : Commands} {part : Bytes} (cfg : LogConfig) (folders : List Bytes)
    → OnDisk fs base sealed batches seg batch part
    → TornPart (seg.first + length batch) part
    → has_later_record part (seg.first + length batch) ≡ true
    → (e : GoError) × (recover_from cfg (sealed ++ seg ∷ []) (sound_disk fs folders)
        ≡ (err e, sound_disk fs folders))
recover_refuses {fs} {base} {sealed} {batches} {seg} {batch} {part} cfg folders o t later =
    let (e, v) =
      verify_segment_refused seg batch fs folders o.last.file o.last.at o.fits
        (omega (arith, o.pos, o.first_eq)) o.small t.size t.command t.fits t.some_of t.less
        (rw (← t.part_eq) later)
        (o.last.content ∙ ap (λ b. encode_all seg.first batch ++ b) t.part_eq) in
    (
      e,
      recover_verified cfg sealed seg (sound_disk fs folders) (
          all_verified fs folders seg _ (λ prev f. alone_err prev seg e _ _ v f) none base sealed
            batches o.stored o.first_eq o.pos (omega (arith, o.small))
            (λ s q. unfold follows in refl)
          ∙ prepend_all-err sealed batches e (sound_disk fs folders)),
    )
