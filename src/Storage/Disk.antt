-- ===== src/Storage/Disk.antt =====
-- The operating system as internal/storage uses it: the files of one directory, what of them
-- survives a crash, and calls that may fail. The Go `os` package promises what is written out here.
pub mod Frame
pub mod Calls
use gokvx.Prelude.{
  ℕ, if◌then◌else◌, Bool, true, false, List, [], ◌∷◌, ◌++◌, map, length, take, Option, none, some,
  Result, ok, err, min,
}
use gokvx.Prelude.Bytes.{Bytes, bytes_eq}
use gokvx.Kverr.Error.{GoError, plain}

-- The first `synced` bytes were flushed; `linked` says that the directory entry was.
pub record File : Type 0 where
  pub content : Bytes
  pub synced : ℕ
  pub linked : Bool

abbrev pub Files : Type 0
Files = List (Bytes × File)

-- `folders` names the entries that are no regular files. `faults` decides what the next calls do: `none` succeeds, and `some n` fails, a write after `n`
-- bytes. When the list is used up, calls succeed.
pub record Disk : Type 0 where
  pub files : Files
  pub folders : List Bytes
  pub faults : List (Option ℕ)

unfoldable pub file_of : Bytes → Files → Option File
file_of name [] = none
file_of name ((k, f) ∷ fs) = if bytes_eq k name then some f else file_of name fs

unfoldable pub update : Bytes → (File → File) → Files → Files
update name g [] = []
update name g ((k, f) ∷ fs) = if bytes_eq k name then (k, g f) ∷ fs else (k, f) ∷ update name g fs

pub io_error : GoError
io_error = plain "i/o error"

-- The outcome of the next call, and the disk without it.
unfoldable pub next_call : Disk → Option ℕ × Disk
next_call d = elim d.faults [ [] ↦ (none, d) | f ∷ fs ↦ (f, record d { faults = fs }) ]

-- A call that changes the files by `g` if it succeeds.
unfoldable pub attempt : (Files → Files) → Disk → Result GoError (Unit {0}) × Disk
unfolding next_call io_error
attempt g d =
    let (f, d') = next_call d in
    elim f [ none ↦ (ok tt, record d' { files = g d'.files }) | some n ↦ (err io_error, d') ]

unfoldable pub extend : Bytes → File → File
extend bytes f = record f { content = f.content ++ bytes }

-- Write to a file that was opened with O_APPEND. A failed write may have written a part.
unfoldable pub write : Bytes → Bytes → Disk → Result GoError (Unit {0}) × Disk
unfolding next_call io_error extend
write name bytes d =
    let (f, d') = next_call d in
    elim f [
      | none ↦ (ok tt, record d' { files = update name (extend bytes) d'.files })
      | some n ↦ (err io_error, record d' { files = update name (extend (take n bytes)) d'.files })
    ]

unfoldable pub flush : File → File
flush f = record f { synced = length f.content }

-- File.Sync.
unfoldable pub fsync : Bytes → Disk → Result GoError (Unit {0}) × Disk
unfolding attempt flush
fsync name = attempt (update name flush)

-- File.Close, os.MkdirAll, opening a file that exists.
unfoldable pub call : Disk → Result GoError (Unit {0}) × Disk
unfolding attempt
call = attempt (λ fs. fs)

abbrev pub empty_file : File
empty_file = record { content = []; synced = 0; linked = false }

-- os.OpenFile with O_CREATE|O_EXCL.
unfoldable pub create : Bytes → Disk → Result GoError (Unit {0}) × Disk
unfolding attempt io_error
create name d = elim (file_of name d.files) [
  | some f ↦ (err io_error, d)
  | none ↦ attempt (λ fs. (name, empty_file) ∷ fs) d
]

unfoldable pub link : Bytes × File → Bytes × File
link (k, f) = (k, record f { linked = true })

-- syncDir: the directory's entries are flushed.
unfoldable pub sync_dir : Disk → Result GoError (Unit {0}) × Disk
unfolding attempt link
sync_dir = attempt (map link)

unfoldable pub cut : ℕ → File → File
cut n f = record f { content = take n f.content; synced = min f.synced n }

-- os.Truncate to a smaller size.
unfoldable pub truncate : Bytes → ℕ → Disk → Result GoError (Unit {0}) × Disk
unfolding attempt cut
truncate name n = attempt (update name (cut n))

-- os.ReadFile.
unfoldable pub read_file : Bytes → Disk → Result GoError Bytes × Disk
unfolding next_call io_error
read_file name d =
    let (f, d') = next_call d in
    elim f [
      | some n ↦ (err io_error, d')
      | none ↦ elim (file_of name d'.files) [
        | none ↦ (err io_error, d')
        | some file ↦ (ok file.content, d')
      ]
    ]

-- The entries of the directory, each with whether it is a regular file.
unfoldable pub entries : Disk → List (Bytes × Bool)
entries d = map (λ (k, x). (k, true)) d.files ++ map (λ k. (k, false)) d.folders

-- os.ReadDir.
unfoldable pub read_dir : Disk → Result GoError (List (Bytes × Bool)) × Disk
unfolding next_call io_error entries
read_dir d =
    let (f, d') = next_call d in
    elim f [ some n ↦ (err io_error, d') | none ↦ (ok (entries d'), d') ]
