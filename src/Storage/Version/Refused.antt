-- ===== src/Storage/Version/Refused.antt =====
-- internal/storage/version.go: what PrepareDataDir refuses.
use gokvx.Prelude.{
  ℕ, true, false, Bool-cases, List, [], ◌∷◌, Option, none, some, Option-cases, err, ◌≡◌, ◌≢◌, refl,
  ap, ◌∙◌, ◌⊎◌, inl, inr, String, ==_iff,
}
use gokvx.Prelude.Bytes.{Bytes}
use gokvx.Prelude.Int.{ℤ, pos, negsuc}
use gokvx.Kverr.Error.{GoError, as_error, wrap, new, reason_of, reason_found, find_error}
use gokvx.Kverr.Reason.{reason_internal, registered, info_of, reasons}
use gokvx.Storage.Disk.{File, Files, Disk, file_of, call, read_dir, entries}
use gokvx.Storage.Version.{
  version_file, Io, trim_space, atoi, names_version, check_version, holds_no_data,
  initialize_data_dir, prepared, prepare_data_dir,
}
use gokvx.Storage.Version.Directory.{is_folder, content_of, read_marker}

-- An INTERNAL error, and the files as they were.
abbrev pub IsRefused : Files → Io (Unit {0}) → Type 0
IsRefused fs o =
    (o.1.files ≡ fs) × (e : GoError) × (o.0 ≡ err e) × (reason_of (some e) ≡ reason_internal)

-- A marker that does not name the format, or data without a marker.
abbrev pub IsForeign : Disk → Type 0
IsForeign d =
    ((f : File) × (file_of version_file d.files ≡ some f)
      × (atoi (trim_space f.content) ≢ some (pos 1)))
    ⊎ ((file_of version_file d.files ≡ none) × (holds_no_data (entries d) ≡ false))

wrap-reason :
    (e : GoError) (m : String)
    → reason_of (some (as_error (wrap reason_internal e m))) ≡ reason_internal
unfolding as_error wrap new registered info_of reasons reason_of reason_found find_error
wrap-reason e m = refl

new-reason : (m : String) → reason_of (some (as_error (new reason_internal m))) ≡ reason_internal
unfolding as_error new registered info_of reasons reason_of reason_found find_error
new-reason m = refl

names_version_sound : (z : ℤ) → names_version z ≡ true → z ≡ pos 1
names_version_sound (pos n) h = ap pos ((==_iff n 1).0 h)
names_version_sound (negsuc n) h = absurd (cc)

check_version-IsRefused :
    (d : Disk) (c : Bytes)
    → atoi (trim_space c) ≢ some (pos 1)
    → IsRefused d.files (check_version c, d)
unfolding check_version
check_version-IsRefused d c h = elim (Option-cases (atoi (trim_space c))) [
  | inl e ↦ rw (check_version, e) (refl, _, refl, new-reason _)
  | inr (z, e) ↦ elim (Bool-cases (names_version z)) [
    | inl v ↦ absurd (h (e ∙ ap some (names_version_sound z v)))
    | inr v ↦ rw (check_version, e, v) (refl, _, refl, new-reason _)
  ]
]

abbrev directory : Files → List Bytes → List (Option ℕ) → Disk
directory fs folders faults = record { files = fs; folders = folders; faults = faults }

initialize_data_dir-IsRefused :
    (fs : Files) (folders : List Bytes) (faults : List (Option ℕ))
    → holds_no_data (entries (directory fs folders [])) ≡ false
    → IsRefused fs (initialize_data_dir (directory fs folders faults))
unfolding initialize_data_dir read_dir entries
initialize_data_dir-IsRefused fs folders [] h = rw h (refl, _, refl, new-reason _)
initialize_data_dir-IsRefused fs folders (none ∷ more) h = rw h (refl, _, refl, new-reason _)
initialize_data_dir-IsRefused fs folders (some n ∷ more) h = (refl, _, refl, wrap-reason _ _)

-- What follows a read of the marker that does not fail.
content-IsRefused :
    (fs : Files) (folders : List Bytes) (faults : List (Option ℕ))
    → IsForeign (directory fs folders [])
    → IsRefused fs (
        prepared
          (content_of version_file (directory fs folders faults), directory fs folders faults))
unfolding content_of
content-IsRefused fs folders faults h = elim (Bool-cases (is_folder version_file folders)) [
  | inl b ↦ rw (content_of, b) (refl, _, refl, wrap-reason _ _)
  | inr b ↦ elim h [
    | inl (f, e, v) ↦
        rw (content_of, b, e) (check_version-IsRefused (directory fs folders faults) f.content v)
    | inr (e, n) ↦ rw (content_of, b, e) (initialize_data_dir-IsRefused fs folders faults n)
  ]
]

read-IsRefused :
    (fs : Files) (folders : List Bytes) (faults : List (Option ℕ))
    → IsForeign (directory fs folders [])
    → IsRefused fs (prepared (read_marker version_file (directory fs folders faults)))
unfolding read_marker
read-IsRefused fs folders [] h = content-IsRefused fs folders [] h
read-IsRefused fs folders (none ∷ more) h = content-IsRefused fs folders more h
read-IsRefused fs folders (some n ∷ more) h = (refl, _, refl, wrap-reason _ _)

-- PrepareDataDir refuses a directory whose marker does not name the format, and one with data but no
-- marker, with an INTERNAL error, and leaves its files as they were; any of its calls may fail.
pub prepare_data_dir-IsRefused : (d : Disk) → IsForeign d → IsRefused d.files (prepare_data_dir d)
unfolding prepare_data_dir call entries
prepare_data_dir-IsRefused d h = go d.files d.folders d.faults h
  where
    go :
        (fs : Files) (folders : List Bytes) (faults : List (Option ℕ))
        → IsForeign (directory fs folders [])
        → IsRefused fs (prepare_data_dir (directory fs folders faults))
    go fs folders [] h = read-IsRefused fs folders [] h
    go fs folders (none ∷ more) h = read-IsRefused fs folders more h
    go fs folders (some n ∷ more) h = (refl, _, refl, wrap-reason _ _)
