-- ===== src/Storage/Version.antt =====
-- internal/storage/version.go: the version marker of a data directory. The directory is a disk whose
-- files are the entries of the directory, with the folders of the log and of the engine among them.
-- A process that stops between two calls is a run whose later calls all fail without an effect.
pub mod Directory
pub mod Whole
pub mod Prepared
pub mod Restarts
pub mod Durable
pub mod Refused
mod Tests
use gokvx.Prelude.{
  ℕ, zero, suc, ◌+◌, ◌-◌, ◌^◌, if◌then◌else◌, Bool, true, false, not, ltb, leb, ◌==◌, String, List,
  [], ◌∷◌, ◌++◌, length, drop, take, Option, none, some, Result, ok, err,
}
use mathlib.Core.List.{reverse}
use gokvx.Prelude.Bytes.{Bytes, bytes_eq}
use gokvx.Prelude.Int.{ℤ, pos, negsuc}
use gokvx.Kverr.Error.{GoError, joined, as_error, wrap, new}
use gokvx.Kverr.Reason.{reason_internal}
use gokvx.Storage.Segment.{digits_value}
use gokvx.Storage.Disk.{Disk, write, fsync, call, sync_dir, read_dir}
use gokvx.Storage.Version.Directory.{read_marker, open_truncated, rename}

abbrev pub format_version : ℕ
format_version = 1

-- "storage_version", and the name of its temporary file.
abbrev pub version_file : Bytes
version_file =
    115 ∷ 116 ∷ 111 ∷ 114 ∷ 97 ∷ 103 ∷ 101 ∷ 95 ∷ 118 ∷ 101 ∷ 114 ∷ 115 ∷ 105 ∷ 111 ∷ 110 ∷ []

abbrev pub temporary : Bytes
temporary = version_file ++ 46 ∷ 116 ∷ 109 ∷ 112 ∷ []

-- "1\n".
abbrev pub marker : Bytes
marker = 49 ∷ 10 ∷ []

-- strings.TrimSpace: the spaces of Unicode, in UTF-8.
abbrev spaces : List Bytes
spaces =
    (9 ∷ [])
    ∷ (10 ∷ [])
    ∷ (11 ∷ [])
    ∷ (12 ∷ [])
    ∷ (13 ∷ [])
    ∷ (32 ∷ [])
    ∷ (194 ∷ 133 ∷ [])
    ∷ (194 ∷ 160 ∷ [])
    ∷ (225 ∷ 154 ∷ 128 ∷ [])
    ∷ (226 ∷ 128 ∷ 128 ∷ [])
    ∷ (226 ∷ 128 ∷ 129 ∷ [])
    ∷ (226 ∷ 128 ∷ 130 ∷ [])
    ∷ (226 ∷ 128 ∷ 131 ∷ [])
    ∷ (226 ∷ 128 ∷ 132 ∷ [])
    ∷ (226 ∷ 128 ∷ 133 ∷ [])
    ∷ (226 ∷ 128 ∷ 134 ∷ [])
    ∷ (226 ∷ 128 ∷ 135 ∷ [])
    ∷ (226 ∷ 128 ∷ 136 ∷ [])
    ∷ (226 ∷ 128 ∷ 137 ∷ [])
    ∷ (226 ∷ 128 ∷ 138 ∷ [])
    ∷ (226 ∷ 128 ∷ 168 ∷ [])
    ∷ (226 ∷ 128 ∷ 169 ∷ [])
    ∷ (226 ∷ 128 ∷ 175 ∷ [])
    ∷ (226 ∷ 129 ∷ 159 ∷ [])
    ∷ (227 ∷ 128 ∷ 128 ∷ [])
    ∷ []

-- What follows the first of the prefixes that the text has.
unfoldable pub after_any : List Bytes → Bytes → Option Bytes
after_any [] s = none
after_any (p ∷ ps) s =
    if bytes_eq (take (length p) s) p then some (drop (length p) s) else after_any ps s

-- Every space has a byte, so the length of the text is fuel enough.
unfoldable pub trim_left : ℕ → List Bytes → Bytes → Bytes
trim_left zero ps s = s
trim_left (suc fuel) ps s = elim (after_any ps s) [ none ↦ s | some rest ↦ trim_left fuel ps rest ]

abbrev reversed : List Bytes → List Bytes
reversed [] = []
reversed (p ∷ ps) = reverse p ∷ reversed ps

unfoldable pub trim_space : Bytes → Bytes
unfolding after_any trim_left
trim_space s =
    let l = trim_left (length s) spaces s in
    reverse (trim_left (length l) (reversed spaces) (reverse l))

-- strconv.Atoi: a sign, digits, and the range of a 64-bit int.
unfoldable pub signed : Bool → Bytes → Option ℤ
unfolding digits_value
signed negative [] = none
signed negative (c ∷ cs) = elim (digits_value 0 (c ∷ cs)) [
  | none ↦ none
  | some zero ↦ some (pos zero)
  | some (suc n) ↦
      if negative
      then if ltb n (2 ^ 63) then some (negsuc n) else none
      else if ltb (suc n) (2 ^ 63)
      then some (pos (suc n))
      else none
]

unfoldable pub atoi : Bytes → Option ℤ
unfolding signed
atoi [] = none
atoi (c ∷ cs) =
    if c == 45 then signed true cs else if c == 43 then signed false cs else signed false (c ∷ cs)

abbrev pub names_version : ℤ → Bool
names_version (pos n) = n == format_version
names_version (negsuc n) = false

-- A call's outcome, with its error wrapped; and the calls that follow it if it succeeds.
abbrev pub Io {ℓ} : Type ℓ → Type ℓ
Io A = Result GoError A × Disk

abbrev pub or_wrap {ℓ} : {A : Type ℓ} → String → Io A → Io A
or_wrap message (ok a, d) = (ok a, d)
or_wrap message (err e, d) = (err (as_error (wrap reason_internal e message)), d)

abbrev pub and_then {ℓ κ} : {A : Type ℓ} {B : Type κ} → Io A → (A → Disk → Io B) → Io B
and_then (ok a, d) more = more a d
and_then (err e, d) more = (err e, d)

unfoldable pub check_version : Bytes → Result GoError (Unit {0})
unfolding trim_space atoi
check_version content = elim (atoi (trim_space content)) [
  | none ↦
      err (as_error (new reason_internal "data directory has an unreadable storage_version marker"))
  | some version ↦
      if names_version version
      then ok tt
      else err (as_error (new reason_internal "data directory uses another storage format"))
]

-- errors.Join of the outcomes of Write, Sync and Close.
abbrev pub all_ok :
    Result GoError (Unit {0})
    → Result GoError (Unit {0})
    → Result GoError (Unit {0})
    → Result GoError (Unit {0})
all_ok (ok _) (ok _) closed = closed
all_ok (err e) (ok _) (ok _) = err e
all_ok (err e) (ok _) (err f) = err (joined e f)
all_ok (ok _) (err e) (ok _) = err e
all_ok (ok _) (err e) (err f) = err (joined e f)
all_ok (err d) (err e) (ok _) = err (joined d e)
all_ok (err d) (err e) (err f) = err (joined (joined d e) f)

-- writeFileAtomic: the file is written, flushed and closed, then renamed, then the directory flushed.
unfoldable pub filled : Bytes → Bytes → Disk → Io (Unit {0})
unfolding write fsync call
filled tmp content d =
    let (written, d1) = write tmp content d in
    let (synced, d2) = fsync tmp d1 in
    let (closed, d3) = call d2 in
    or_wrap "storage_version could not be written" (all_ok written synced closed, d3)

unfoldable pub put_in_place : Bytes → Bytes → Disk → Io (Unit {0})
unfolding rename sync_dir
put_in_place name tmp d =
    and_then (or_wrap "storage_version could not be put in place" (rename tmp name d))
      λ _ d1. or_wrap "directory could not be synced" (sync_dir d1)

unfoldable pub write_file_atomic : Bytes → Bytes → Bytes → Disk → Io (Unit {0})
unfolding open_truncated filled put_in_place
write_file_atomic name tmp content d =
    and_then (or_wrap "storage_version could not be created" (open_truncated tmp d))
      λ _ d1. and_then (filled tmp content d1) λ _ d2. put_in_place name tmp d2

-- Whether every entry is a leftover of an interrupted attempt.
unfoldable pub holds_no_data : List (Bytes × Bool) → Bool
holds_no_data [] = true
holds_no_data ((name, _) ∷ es) = if bytes_eq name temporary then holds_no_data es else false

unfoldable pub initialize_data_dir : Disk → Io (Unit {0})
unfolding write_file_atomic
initialize_data_dir d = and_then (or_wrap "data directory could not be read" (read_dir d)) λ es d1.
    if holds_no_data es then write_file_atomic version_file temporary marker d1 else (
      err (
          as_error (
            new reason_internal
              "data directory contains data but no storage_version marker; refusing to use it")),
      d1,
    )

abbrev pub prepared : Io (Option Bytes) → Io (Unit {0})
prepared (err e, d) = or_wrap "storage_version marker could not be read" (err e, d)
prepared (ok (some content), d) = (check_version content, d)
prepared (ok none, d) = initialize_data_dir d

unfoldable pub prepare_data_dir : Disk → Io (Unit {0})
unfolding check_version initialize_data_dir
prepare_data_dir d =
    and_then (or_wrap "data directory could not be created" (call d))
      λ _ d1. prepared (read_marker version_file d1)
