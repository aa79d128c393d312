-- ===== src/Storage/Version/Durable.antt =====
-- internal/storage/version.go: the marker that a run has written is there after a cut of the power.
use gokvx.Prelude.{
  ℕ, if◌then◌else◌, Bool, true, false, Bool-cases, List, [], ◌∷◌, map, Option, none, some,
  Option-cases, ok, err, ◌≡◌, ◌≢◌, refl, ap, sym, ◌∙◌, inl, inr,
}
use mathlib.Core.Path.{subst}
use gokvx.Prelude.Bytes.{Bytes, bytes_eq_refl}
use gokvx.Storage.Version.Restarts.{whole_content}
use gokvx.Kverr.Error.{GoError}
use gokvx.Storage.Disk.{File, Files, Disk, file_of, call, link, sync_dir, read_dir}
use gokvx.Storage.Version.{
  version_file, temporary, marker, Io, or_wrap, filled, put_in_place, write_file_atomic,
  holds_no_data, initialize_data_dir, prepared, prepare_data_dir,
}
use gokvx.Storage.Version.Directory.{
  is_folder, content_of, read_marker, open_truncated, rename, placed, without, Fate, shortened,
  power_cut,
}
use gokvx.Storage.Version.Whole.{AllWhole, AllWhole-power_cut, attempt_ok}
use gokvx.Storage.Version.Prepared.{
  and_then_ok, or_wrap_ok, or_wrap-ok, or_wrap_disk, prepare_data_dir-AllWhole,
}

-- The marker is the first entry, and flushed.
abbrev Leads : Files → Type 0
Leads fs = (f : File) × (rest : Files) × (fs ≡ (version_file, f) ∷ rest) × (f.linked ≡ true)

renamed_file :
    (d d1 : Disk)
    → rename temporary version_file d ≡ (ok tt, d1)
    → (f : File) × (rest : Files) × (d1.files ≡ (version_file, f) ∷ rest)
unfolding rename placed
renamed_file d d1 h = elim (Option-cases (file_of temporary d.files)) [
  | inl e ↦ let none_there = rw (rename, e) at h in absurd (cc)
  | inr (f, e) ↦ elim (Bool-cases (is_folder version_file d.folders)) [
    | inl b ↦ let taken = rw (rename, e, b) at h in absurd (cc)
    | inr b ↦
        let done = rw (rename, e, b) at h in
        (
          record f { linked = false },
          without version_file (without temporary d.files),
          sym (ap (λ o. o.1.files) done)
              ∙ attempt_ok (placed temporary version_file f) d (ap (λ o. o.0) done),
        )
  ]
]

put_in_place-Leads :
    (d : Disk)
    → (put_in_place version_file temporary d).0 ≡ ok tt
    → Leads (put_in_place version_file temporary d).1.files
unfolding put_in_place sync_dir link
put_in_place-Leads d h =
    let (a, d1, q, r, same) =
      and_then_ok
        (or_wrap "storage_version could not be put in place" (rename temporary version_file d)) _ tt
        h in
    let (f, rest, e) = renamed_file d d1 (or_wrap_ok _ (rename temporary version_file d) a d1 q) in
    let flushed = attempt_ok (map link) d1 (or_wrap-ok _ (sync_dir d1) tt r) in
    (
      record f { linked = true },
      map link rest,
      ap (λ x. x.files) same
          ∙ ap (λ x. x.files) (or_wrap_disk _ (sync_dir d1))
          ∙ flushed
          ∙ ap (map link) e,
      refl,
    )

write_file_atomic-Leads :
    (d : Disk)
    → (write_file_atomic version_file temporary marker d).0 ≡ ok tt
    → Leads (write_file_atomic version_file temporary marker d).1.files
unfolding write_file_atomic
write_file_atomic-Leads d h =
    let (a, d1, q, r, same) =
      and_then_ok (or_wrap "storage_version could not be created" (open_truncated temporary d)) _ tt
        h in
    let (b, d2, q2, r2, same2) = and_then_ok (filled temporary marker d1) _ tt r in
    subst Leads (sym (ap (λ x. x.files) (same ∙ same2))) (put_in_place-Leads d2 r2)

-- A choice whose second branch fails was the first, when it succeeds.
chosen :
    (b : Bool) (x y : Io (Unit {0})) (e : GoError)
    → y.0 ≡ err e
    → (if b then x else y).0 ≡ ok tt
    → (x.0 ≡ ok tt) × ((if b then x else y) ≡ x)
chosen true x y e p h = (h, refl)
chosen false x y e p h = absurd (cc)

initialize_data_dir-Leads :
    (d : Disk) → (initialize_data_dir d).0 ≡ ok tt → Leads (initialize_data_dir d).1.files
unfolding initialize_data_dir
initialize_data_dir-Leads d h =
    let (es, d1, q, r, same) =
      and_then_ok (or_wrap "data directory could not be read" (read_dir d)) _ tt h in
    let (w, first) =
      chosen (holds_no_data es) (write_file_atomic version_file temporary marker d1) _ _ refl r in
    subst Leads (sym (ap (λ x. x.files) same ∙ ap (λ o. o.1.files) first))
      (write_file_atomic-Leads d1 w)

no_marker :
    (d : Disk) (c : Bytes)
    → file_of version_file d.files ≡ none
    → content_of version_file d ≢ ok (some c)
unfolding content_of
no_marker d c n h = elim (Bool-cases (is_folder version_file d.folders)) [
  | inl b ↦ let taken = rw (content_of, b) at h in absurd (cc)
  | inr b ↦ let absent = rw (content_of, b, n) at h in absurd (cc)
]

read_marker_absent :
    (d : Disk) (c : Bytes)
    → file_of version_file d.files ≡ none
    → (read_marker version_file d).0 ≢ ok (some c)
read_marker_absent d c n h = go d.files d.folders d.faults n h
  where
    go :
        (fs : Files) (folders : List Bytes) (faults : List (Option ℕ))
        → file_of version_file fs ≡ none
        → (read_marker version_file (record { files = fs; folders = folders; faults = faults })).0
          ≢ ok (some c)
    go fs folders [] n h =
        unfold read_marker in
        no_marker (record { files = fs; folders = folders; faults = [] }) c n h
    go fs folders (none ∷ more) n h =
        unfold read_marker in
        no_marker (record { files = fs; folders = folders; faults = more }) c n h
    go fs folders (some m ∷ more) n h = unfold read_marker in cc

prepared-Leads :
    (o : Io (Option Bytes))
    → ((c : Bytes) → o.0 ≢ ok (some c))
    → (prepared o).0 ≡ ok tt
    → Leads (prepared o).1.files
prepared-Leads (err e, d) k h = absurd (cc)
prepared-Leads (ok (some c), d) k h = absurd (k c refl)
prepared-Leads (ok none, d) k h = initialize_data_dir-Leads d h

Leads-power_cut :
    (fates : Bytes → Fate × ℕ) (fs : Files)
    → Leads fs
    → (f : File) × (file_of version_file (power_cut temporary version_file fates fs) ≡ some f)
unfolding power_cut file_of
Leads-power_cut fates fs (f, rest, e, l) = (
  shortened (fates version_file).1 f,
  ap (λ l. file_of version_file (power_cut temporary version_file fates l)) e
      ∙ rw (l, bytes_eq_refl version_file) refl,
)

-- When PrepareDataDir succeeds in a directory that has no marker, the marker is in the directory and
-- whole, whatever a cut of the power makes of what was not flushed; the directory held nothing but a
-- leftover of an earlier run.
pub prepare_data_dir-marker :
    (d : Disk) (fates : Bytes → Fate × ℕ)
    → AllWhole d.files
    → file_of version_file d.files ≡ none
    → (prepare_data_dir d).0 ≡ ok tt
    → (f : File) × (file_of version_file
          (power_cut temporary version_file fates (prepare_data_dir d).1.files)
        ≡ some f)
      × (f.content ≡ marker)
unfolding prepare_data_dir call
prepare_data_dir-marker d fates w n h =
    let (a, d1, q, r, same) =
      and_then_ok (or_wrap "data directory could not be created" (call d)) _ tt h in
    let files =
      sym (ap (λ o. o.1.files) (or_wrap_ok _ (call d) a d1 q))
      ∙ attempt_ok (λ fs. fs) d (ap (λ o. o.0) (or_wrap_ok _ (call d) a d1 q)) in
    let absent = ap (file_of version_file) files ∙ n in
    let leads =
      subst Leads (sym (ap (λ x. x.files) same))
        (prepared-Leads (read_marker version_file d1) (λ c. read_marker_absent d1 c absent) r) in
    let (f, e) = Leads-power_cut fates (prepare_data_dir d).1.files leads in
    (
      f,
      e,
      whole_content (power_cut temporary version_file fates (prepare_data_dir d).1.files) f
          (AllWhole-power_cut fates (prepare_data_dir d).1.files (prepare_data_dir-AllWhole d w)) e,
    )
