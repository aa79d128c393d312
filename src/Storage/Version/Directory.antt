-- ===== src/Storage/Version/Directory.antt =====
-- The calls of internal/storage/version.go on a directory that internal/storage/log.go does not make,
-- and a cut of the power.
use gokvx.Prelude.{
  ℕ, ◌+◌, if◌then◌else◌, Bool, true, false, List, [], ◌∷◌, take, Option, none, some, Result, ok,
  err,
}
use gokvx.Prelude.Bytes.{Bytes, bytes_eq}
use gokvx.Kverr.Error.{GoError}
use gokvx.Storage.Disk.{
  File, Files, Disk, file_of, update, next_call, attempt, io_error, empty_file, flush,
}

unfoldable pub is_folder : Bytes → List Bytes → Bool
is_folder name [] = false
is_folder name (k ∷ ks) = if bytes_eq k name then true else is_folder name ks

-- os.ReadFile, with none for fs.ErrNotExist.
unfoldable pub content_of : Bytes → Disk → Result GoError (Option Bytes)
unfolding is_folder file_of
content_of name d =
    if is_folder name d.folders
    then err io_error
    else elim (file_of name d.files) [ none ↦ ok none | some file ↦ ok (some file.content) ]

unfoldable pub read_marker : Bytes → Disk → Result GoError (Option Bytes) × Disk
unfolding next_call content_of
read_marker name d =
    let (f, d1) = next_call d in (elim f [ some n ↦ err io_error | none ↦ content_of name d1 ], d1)

-- os.OpenFile with O_CREATE|O_TRUNC.
unfoldable pub emptied : Bytes → Files → Files
unfolding file_of update
emptied name fs = elim (file_of name fs) [
  | none ↦ (name, empty_file) ∷ fs
  | some _ ↦ update name (λ f. record f { content = []; synced = 0 }) fs
]

unfoldable pub open_truncated : Bytes → Disk → Result GoError (Unit {0}) × Disk
unfolding attempt is_folder emptied
open_truncated name d =
    if is_folder name d.folders then (err io_error, d) else attempt (emptied name) d

-- os.Rename of a file, in place of a file of the new name. Its entry is not flushed then.
unfoldable pub without : Bytes → Files → Files
without name [] = []
without name ((k, f) ∷ fs) =
    let rest = without name fs in if bytes_eq k name then rest else (k, f) ∷ rest

unfoldable pub placed : Bytes → Bytes → File → Files → Files
unfolding without
placed old new f fs = (new, record f { linked = false }) ∷ without new (without old fs)

unfoldable pub rename : Bytes → Bytes → Disk → Result GoError (Unit {0}) × Disk
unfolding attempt is_folder placed file_of
rename old new d = elim (file_of old d.files) [
  | none ↦ (err io_error, d)
  | some f ↦ if is_folder new d.folders then (err io_error, d) else attempt (placed old new f) d
]

-- What a cut of the power makes of an entry that was not flushed: it is gone, it stays, or the file
-- has the name that it had before.
pub data Fate : Type 0 where
  gone : Fate
  stays : Fate
  renamed_back : Fate

-- Of a file's content, at least what was flushed is left.
unfoldable pub shortened : ℕ → File → File
unfolding flush
shortened n f = flush (record f { content = take (f.synced + n) f.content; linked = true })

-- One entry, before the rest; `new` was renamed from `old`.
unfoldable pub cut_entry : Bytes → Bytes → Fate → Bytes × File → Files → Files
cut_entry old new gone x rest = rest
cut_entry old new stays x rest = x ∷ rest
cut_entry old new renamed_back (k, f) rest = (if bytes_eq k new then old else k, f) ∷ rest

-- `fates` says for each name what happens to its entry, if that was not flushed, and how much of its
-- content is left that was not flushed.
unfoldable pub power_cut : Bytes → Bytes → (Bytes → Fate × ℕ) → Files → Files
unfolding shortened cut_entry
power_cut old new fates [] = []
power_cut old new fates ((k, f) ∷ fs) =
    let rest = power_cut old new fates fs in
    let x : Bytes × File = (k, shortened (fates k).1 f) in
    if f.linked then x ∷ rest else cut_entry old new (fates k).0 x rest
