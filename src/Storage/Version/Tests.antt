-- ===== src/Storage/Version/Tests.antt =====
-- internal/storage/version.go: the theorems at concrete inputs.
use gokvx.Prelude.{ℕ, true, [], ◌∷◌, none, some, ok, ◌≡◌, ◌≢◌, refl, inl}
use gokvx.Prelude.Bytes.{Bytes, bytes_eq}
use gokvx.Prelude.Int.{pos}
use gokvx.Storage.Segment.{digits_value}
use gokvx.Storage.Disk.{File, Files, Disk, file_of}
use gokvx.Storage.Version.{
  version_file, temporary, marker, atoi, signed, after_any, trim_left, trim_space, prepare_data_dir,
}
use gokvx.Storage.Version.Directory.{Fate, renamed_back, power_cut}
use gokvx.Storage.Version.Whole.{AllWhole}
use gokvx.Storage.Version.Restarts.{clean, restarted, prepare_data_dir-AllWhole_cut}
use gokvx.Storage.Version.Durable.{prepare_data_dir-marker}
use gokvx.Storage.Version.Refused.{IsRefused, prepare_data_dir-IsRefused}

-- A torn temporary file is left from an earlier run.
abbrev leftover : Files
leftover = (temporary, record { content = 49 ∷ []; synced = 0; linked = true }) ∷ []

-- The flush of the directory fails, and the entry of the marker is lost.
abbrev interrupted : Disk
interrupted = record {
  files = leftover;
  folders = [];
  faults = none ∷ none ∷ none ∷ none ∷ none ∷ none ∷ none ∷ none ∷ some 0 ∷ [];
}

abbrev lose : Bytes → Fate × ℕ
lose name = (renamed_back, 0)

prepare_data_dir-AllWhole_cut_example :
    AllWhole (power_cut temporary version_file lose (prepare_data_dir interrupted).1.files)
    × ((prepare_data_dir
          (clean (power_cut temporary version_file lose (prepare_data_dir interrupted).1.files))).0
        ≡ ok tt)
prepare_data_dir-AllWhole_cut_example =
    prepare_data_dir-AllWhole_cut interrupted lose (inl refl, tt)

abbrev fresh : Disk
fresh = record { files = leftover; folders = []; faults = [] }

fresh_absent : file_of version_file leftover ≡ none
unfolding file_of bytes_eq
fresh_absent = refl

fresh_ok : (prepare_data_dir fresh).0 ≡ ok tt
fresh_ok = restarted leftover (inl refl, tt)

prepare_data_dir-marker_example :
    (f : File) × (file_of version_file
        (power_cut temporary version_file lose (prepare_data_dir fresh).1.files)
      ≡ some f)
    × (f.content ≡ marker)
prepare_data_dir-marker_example =
    prepare_data_dir-marker fresh lose (inl refl, tt) fresh_absent fresh_ok

-- The marker of another format.
abbrev newer_file : File
newer_file = record { content = 50 ∷ 10 ∷ []; synced = 2; linked = true }

abbrev newer : Disk
newer = record { files = (version_file, newer_file) ∷ []; folders = []; faults = [] }

newer_found : file_of version_file newer.files ≡ some newer_file
unfolding file_of bytes_eq
newer_found = refl

newer_other : atoi (trim_space newer_file.content) ≢ some (pos 1)
unfolding atoi trim_space signed digits_value after_any trim_left bytes_eq
newer_other p = absurd (cc)

prepare_data_dir-IsRefused_example : IsRefused newer.files (prepare_data_dir newer)
prepare_data_dir-IsRefused_example =
    prepare_data_dir-IsRefused newer (inl (newer_file, newer_found, newer_other))
