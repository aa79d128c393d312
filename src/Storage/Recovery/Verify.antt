-- ===== src/Storage/Recovery/Verify.antt =====
-- verifySegment on a segment that Append wrote, whole or with its last record cut short, on a disk
-- whose calls succeed.
use gokvx.Prelude.{
  ℕ, ◌+◌, ◌-◌, ◌≤◌, ◌<◌, ◌≡◌, ap, ◌∙◌, Bool, true, false, List, [], ◌++◌, length, length-append,
  take, length-take, Result, none, some, arith, ok, err, All,
}
use native.Mathlib.Nat.{zero-add}
use gokvx.Prelude.Bytes.{Bytes}
use gokvx.Kverr.Error.{GoError}
use gokvx.Prelude.Words.{u64_mod, sub64, sub64_fits}
use gokvx.Storage.Record.{encode_record, torn_record, has_later_record}
use gokvx.Storage.Segment.{Segment}
use gokvx.Storage.Disk.{
  File, Files, Disk, file_of, update, flush, cut, read_file, truncate, fsync, call,
}
use gokvx.Storage.Stream.{Commands, Fits, encode_all, length-encode_all_ge}
use gokvx.Storage.Scan.{Scanned, bad_record, scan_segment, judge, damage_error, is_out_of_sequence}
use gokvx.Storage.Scan.Intact.{scan_healthy, scan_torn}
use gokvx.Storage.Recovery.{corruption, truncate_tail, settle, verify_segment}

-- A disk whose calls succeed.
abbrev pub sound_disk : Files → List Bytes → Disk
sound_disk fs folders = record { files = fs; folders = folders; faults = [] }

-- A segment with its last index set, as verifySegment sets it.
abbrev pub counted : Segment → Commands → Segment
counted s cs = record s { last = s.first + length cs - 1 }

-- The files once the file `path` was cut to `n` bytes and flushed.
abbrev pub trimmed : Bytes → ℕ → Files → Files
trimmed path n fs = update path flush (update path (cut n) fs)

pub read_sound :
    (path : Bytes) (fs : Files) (folders : List Bytes) (f : File)
    → file_of path fs ≡ some f
    → read_file path (sound_disk fs folders) ≡ (ok f.content, sound_disk fs folders)
unfolding read_file
read_sound path fs folders f h = ground (arith, h)

pub verify_step :
    (s : Segment) (is_last : Bool) (d : Disk) {content : Bytes} {d1 : Disk}
    → read_file s.path d ≡ (ok content, d1)
    → verify_segment s is_last d
      ≡ settle s (scan_segment s.first content) (judge is_last (scan_segment s.first content)) d1
unfolding verify_segment
verify_step s is_last d h = rw (
  ap (λ (o : Result GoError Bytes × Disk). o.0) h,
  verify_segment,
  ap (λ (o : Result GoError Bytes × Disk). o.1) h,
)

module _ (s : Segment) (cs : Commands) (fs : Files) (folders : List Bytes) (f : File)
    (at : file_of s.path fs ≡ some f) (fits : All Fits cs) (pos : 1 ≤ s.first)
    (small : s.first + length cs < u64_mod) where
  last_eq : sub64 (s.first + length cs) 1 ≡ s.first + length cs - 1
  last_eq = sub64_fits (s.first + length cs) 1 small (omega arith)

  -- A segment of whole records is healthy: nothing is changed.
  pub verify_intact :
      (is_last : Bool)
      → f.content ≡ encode_all s.first cs
      → verify_segment s is_last (sound_disk fs folders)
        ≡ (ok (counted s cs, length (encode_all s.first cs)), sound_disk fs folders)
  verify_intact is_last e =
      verify_step s is_last (sound_disk fs folders) (read_sound s.path fs folders f at)
      ∙ ap (λ x. settle s x (judge is_last x) (sound_disk fs folders))
          (ap (scan_segment s.first) e ∙ scanned)
      ∙ unfold judge settle in rw last_eq
    where
      scanned : scan_segment s.first (encode_all s.first cs) ≡ record {
        offset = length (encode_all s.first cs);
        next = s.first + length cs;
        rest = [];
        damage = none;
      }
      scanned =
          unfold scan_segment in
          scan_healthy cs (length (encode_all s.first cs)) 0 s.first
            (length-encode_all_ge s.first cs) small fits
          ∙ rw zero-add

  torn_end : ℕ → Bytes → Scanned
  torn_end m c = record {
    offset = length (encode_all s.first cs);
    next = s.first + length cs;
    rest = take m (encode_record (s.first + length cs) c);
    damage = some (bad_record torn_record);
  }

  torn_scan :
      (m : ℕ) (c : Bytes)
      → Fits c
      → 0 < m
      → m < length (encode_record (s.first + length cs) c)
      → scan_segment s.first
          (encode_all s.first cs ++ take m (encode_record (s.first + length cs) c))
        ≡ torn_end m c
  unfolding scan_segment torn_end
  torn_scan m c hc hm short = scan_torn cs _ 0 s.first m c more small fits hc hm short ∙ rw zero-add
    where
      more :
          length cs
          < length (encode_all s.first cs ++ take m (encode_record (s.first + length cs) c))
      more = rw length-append (
          omega (
            arith,
            length-encode_all_ge s.first cs,
            length-take m (encode_record (s.first + length cs) c) (omega arith),
          ))

  -- A torn tail: the part of a record is cut off, and the segment ends behind its last whole record.
  pub verify_torn :
      (m : ℕ) (c : Bytes)
      → Fits c
      → 0 < m
      → m < length (encode_record (s.first + length cs) c)
      → has_later_record (take m (encode_record (s.first + length cs) c)) (s.first + length cs)
        ≡ false
      → f.content ≡ encode_all s.first cs ++ take m (encode_record (s.first + length cs) c)
      → verify_segment s true (sound_disk fs folders) ≡ (
        ok (counted s cs, length (encode_all s.first cs)),
        sound_disk (trimmed s.path (length (encode_all s.first cs)) fs) folders,
      )
  unfolding torn_end
  verify_torn m c hc hm short quiet e =
      verify_step s true (sound_disk fs folders) (read_sound s.path fs folders f at)
      ∙ ap (λ x. settle s x (judge true x) (sound_disk fs folders))
          (ap (scan_segment s.first) e ∙ torn_scan m c hc hm short)
      ∙ unfold judge settle is_out_of_sequence truncate_tail truncate fsync call in
        rw quiet (rw last_eq)

  -- The same damage with an intact later record behind it is corruption: the segment is refused and
  -- nothing is cut.
  pub verify_segment_refused :
      (m : ℕ) (c : Bytes)
      → Fits c
      → 0 < m
      → m < length (encode_record (s.first + length cs) c)
      → has_later_record (take m (encode_record (s.first + length cs) c)) (s.first + length cs)
        ≡ true
      → f.content ≡ encode_all s.first cs ++ take m (encode_record (s.first + length cs) c)
      → (e : GoError) × (verify_segment s true (sound_disk fs folders)
          ≡ (err e, sound_disk fs folders))
  unfolding torn_end
  verify_segment_refused m c hc hm short later e = (
    corruption (damage_error (bad_record torn_record)),
    verify_step s true (sound_disk fs folders) (read_sound s.path fs folders f at)
        ∙ ap (λ x. settle s x (judge true x) (sound_disk fs folders))
            (ap (scan_segment s.first) e ∙ torn_scan m c hc hm short)
        ∙ unfold judge settle is_out_of_sequence in rw later,
  )
