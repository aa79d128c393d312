-- ===== src/Storage/Version/Restarts.antt =====
-- internal/storage/version.go: PrepareDataDir after a stop or a cut of the power, and what it leaves
-- when it succeeds.
use gokvx.Prelude.{
  ℕ, true, false, [], ◌∷◌, ◌++◌, map, none, some, Option-cases, ok, arith, ◌≡◌, refl, ap, sym, ◌∙◌,
  inl, inr,
}
use gokvx.Prelude.Bytes.{Bytes, bytes_eq, bytes_eq_refl}
use gokvx.Storage.Disk.{File, Files, Disk, file_of, attempt, extend, update, flush, read_dir}
use gokvx.Storage.Version.{
  version_file, temporary, marker, check_version, put_in_place, write_file_atomic, holds_no_data,
  initialize_data_dir, prepared, prepare_data_dir,
}
use gokvx.Storage.Version.Directory.{content_of, read_marker, emptied, rename, Fate, power_cut}
use gokvx.Storage.Version.Whole.{AllWhole, AllWhole-power_cut}
use gokvx.Storage.Version.Prepared.{filled_whole, prepare_data_dir-AllWhole}

-- A directory with these files and no folder, on a disk whose calls succeed.
abbrev pub clean : Files → Disk
clean fs = record { files = fs; folders = []; faults = [] }

attempt_clean : (g : Files → Files) (fs : Files) → attempt g (clean fs) ≡ (ok tt, clean (g fs))
unfolding attempt
attempt_clean g fs = refl

not_marker : (k : Bytes) → k ≡ temporary → bytes_eq k version_file ≡ false
unfolding bytes_eq
not_marker k p = ap (λ j. bytes_eq j version_file) p

pub whole_content :
    (fs : Files) (f : File) → AllWhole fs → file_of version_file fs ≡ some f → f.content ≡ marker
unfolding file_of
whole_content [] f h e = absurd (cc)
whole_content ((k, x) ∷ fs) f (inl p, hs) e =
    whole_content fs f hs (ground (arith, e, not_marker k p))
whole_content ((k, x) ∷ fs) f (inr (p, c, s), hs) e = ap (λ y. y.content) (sym same) ∙ c
  where
    same : x ≡ f
    same = ground (arith, e, p, bytes_eq_refl version_file)

no_data :
    (fs : Files)
    → AllWhole fs
    → file_of version_file fs ≡ none
    → holds_no_data (map (λ (k, x). (k, true)) fs ++ []) ≡ true
unfolding holds_no_data file_of
no_data [] h e = refl
no_data ((k, x) ∷ fs) (inl p, hs) e =
    ground (arith, p, bytes_eq_refl temporary, no_data fs hs (ground (arith, e, not_marker k p)))
no_data ((k, x) ∷ fs) (inr (p, c, s), hs) e =
    absurd (ground (arith, e, p, bytes_eq_refl version_file))

write_clean : (fs : Files) → (write_file_atomic version_file temporary marker (clean fs)).0 ≡ ok tt
unfolding write_file_atomic put_in_place rename
write_clean fs =
    let d1 = clean (emptied temporary fs) in
    let d2 =
      clean (update temporary flush (update temporary (extend marker) (emptied temporary fs))) in
    let (f, e, c, y) = filled_whole (clean fs) d1 d2 refl refl in rw (put_in_place, rename, e) refl

check_marker : check_version marker ≡ ok tt
unfolding check_version bytes_eq
check_marker = refl

read_none :
    (fs : Files)
    → file_of version_file fs ≡ none
    → read_marker version_file (clean fs) ≡ (ok none, clean fs)
unfolding read_marker content_of
read_none fs e = rw (content_of, e) refl

read_some :
    (fs : Files) (f : File)
    → file_of version_file fs ≡ some f
    → read_marker version_file (clean fs) ≡ (ok (some f.content), clean fs)
unfolding read_marker content_of
read_some fs f e = rw (content_of, e) refl

initialize_clean :
    (fs : Files)
    → holds_no_data (map (λ (k, x). (k, true)) fs ++ []) ≡ true
    → (initialize_data_dir (clean fs)).0 ≡ ok tt
unfolding initialize_data_dir read_dir
initialize_clean fs n = rw n (write_clean fs)

pub restarted : (fs : Files) → AllWhole fs → (prepare_data_dir (clean fs)).0 ≡ ok tt
unfolding prepare_data_dir
restarted fs h = elim (Option-cases (file_of version_file fs)) [
  | inl e ↦ ap (λ o. (prepared o).0) (read_none fs e) ∙ initialize_clean fs (no_data fs h e)
  | inr (f, e) ↦
      ap (λ o. (prepared o).0) (read_some fs f e)
      ∙ ap check_version (whole_content fs f h e)
      ∙ check_marker
]

-- PrepareDataDir is run in a directory that holds nothing but a whole marker or a leftover of an
-- earlier run, and any of its calls may fail. Whatever a cut of the power then makes of what was not
-- flushed, the directory holds no other content of a marker than the whole one, and the next run
-- succeeds if its calls do.
pub prepare_data_dir-AllWhole_cut :
    (d : Disk) (fates : Bytes → Fate × ℕ)
    → AllWhole d.files
    → AllWhole (power_cut temporary version_file fates (prepare_data_dir d).1.files)
      × ((prepare_data_dir
            (clean (power_cut temporary version_file fates (prepare_data_dir d).1.files))).0
          ≡ ok tt)
prepare_data_dir-AllWhole_cut d fates h =
    let cut =
      AllWhole-power_cut fates (prepare_data_dir d).1.files (prepare_data_dir-AllWhole d h) in
    (cut, restarted (power_cut temporary version_file fates (prepare_data_dir d).1.files) cut)
