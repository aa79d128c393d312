-- ===== src/Storage/Version/Prepared.antt =====
-- internal/storage/version.go: what PrepareDataDir makes of a directory, whatever fails.
use gokvx.Prelude.{
  ℕ, if_elim, String, List, [], ◌∷◌, length, Option, none, some, Result, ok, err, ◌≡◌, refl, ap,
  sym, ◌∙◌,
}
use mathlib.Core.Path.{subst}
use gokvx.Prelude.Bytes.{Bytes}
use gokvx.Kverr.Error.{GoError}
use gokvx.Storage.Disk.{File, Files, Disk, file_of, write, fsync, call, sync_dir, read_dir}
use gokvx.Storage.Version.{
  version_file, temporary, marker, Io, or_wrap, and_then, all_ok, filled, put_in_place,
  write_file_atomic, holds_no_data, initialize_data_dir, prepared, prepare_data_dir,
}
use gokvx.Storage.Version.Directory.{read_marker, open_truncated, rename}
use gokvx.Storage.Version.Whole.{
  AllWhole, open_truncated-AllWhole, write-AllWhole, fsync-AllWhole, call-AllWhole, rename-AllWhole,
  sync_dir-AllWhole, written_whole, attempt_ok,
}

-- What holds after the first calls and after those that follow holds at the end.
and_then_elim {ℓ κ κ2} :
    {A : Type ℓ} {B : Type κ} (P : Disk → Type κ2) (o : Io A) (more : A → Disk → Io B)
    → P o.1
    → ((a : A) (d : Disk) → o ≡ (ok a, d) → P (more a d).1)
    → P (and_then o more).1
and_then_elim P (ok a, d) more h k = k a d refl
and_then_elim P (err e, d) more h k = h

pub and_then_ok {ℓ κ} :
    {A : Type ℓ} {B : Type κ} (o : Io A) (more : A → Disk → Io B) (b : B)
    → (and_then o more).0 ≡ ok b
    → (a : A) × (d : Disk) × (o ≡ (ok a, d))
      × ((more a d).0 ≡ ok b)
      × ((and_then o more).1 ≡ (more a d).1)
and_then_ok (ok a, d) more b h = (a, d, refl, h, refl)
and_then_ok (err e, d) more b h = absurd (cc)

pub or_wrap_disk {ℓ} : {A : Type ℓ} (m : String) (o : Io A) → (or_wrap m o).1 ≡ o.1
or_wrap_disk m (ok a, d) = refl
or_wrap_disk m (err e, d) = refl

pub or_wrap_ok {ℓ} :
    {A : Type ℓ} (m : String) (o : Io A) (a : A) (d : Disk)
    → or_wrap m o ≡ (ok a, d)
    → o ≡ (ok a, d)
or_wrap_ok m (ok b, c) a d h = h
or_wrap_ok m (err e, c) a d h = absurd (cc)

pub or_wrap-ok {ℓ} :
    {A : Type ℓ} (m : String) (o : Io A) (a : A) → (or_wrap m o).0 ≡ ok a → o.0 ≡ ok a
or_wrap-ok m (ok b, c) a h = h
or_wrap-ok m (err e, c) a h = absurd (cc)

all_ok_ok :
    (w s c : Result GoError (Unit {0}))
    → all_ok w s c ≡ ok tt
    → (w ≡ ok tt) × (s ≡ ok tt) × (c ≡ ok tt)
all_ok_ok (ok _) (ok _) c h = (refl, refl, h)
all_ok_ok (err e) (ok _) (ok _) h = absurd (cc)
all_ok_ok (err e) (ok _) (err f) h = absurd (cc)
all_ok_ok (ok _) (err e) (ok _) h = absurd (cc)
all_ok_ok (ok _) (err e) (err f) h = absurd (cc)
all_ok_ok (err d) (err e) (ok _) h = absurd (cc)
all_ok_ok (err d) (err e) (err f) h = absurd (cc)

abbrev WholeDisk : Disk → Type 0
WholeDisk d = AllWhole d.files

wrapped-AllWhole {ℓ} :
    {A : Type ℓ} (m : String) (o : Io A) → WholeDisk o.1 → WholeDisk (or_wrap m o).1
wrapped-AllWhole m (ok a, d) h = h
wrapped-AllWhole m (err e, d) h = h

-- The calls of `filled` before the error is wrapped.
abbrev raw : Disk → Io (Unit {0})
raw d =
    let d1 = (write temporary marker d).1 in
    let d2 = (fsync temporary d1).1 in
    (all_ok (write temporary marker d).0 (fsync temporary d1).0 (call d2).0, (call d2).1)

filled-AllWhole : (d : Disk) → WholeDisk d → WholeDisk (filled temporary marker d).1
unfolding filled
filled-AllWhole d h = wrapped-AllWhole "storage_version could not be written" (raw d) (
    call-AllWhole (fsync temporary (write temporary marker d).1).1
      (fsync-AllWhole (write temporary marker d).1 (write-AllWhole marker d h)))

-- The temporary file is whole when its calls have succeeded.
pub filled_whole :
    (d d1 d2 : Disk)
    → open_truncated temporary d ≡ (ok tt, d1)
    → filled temporary marker d1 ≡ (ok tt, d2)
    → (f : File) × (file_of temporary d2.files ≡ some f)
      × (f.content ≡ marker)
      × (f.synced ≡ length marker)
unfolding filled call
filled_whole d d1 d2 p h =
    let q = or_wrap_ok "storage_version could not be written" (raw d1) tt d2 h in
    let flushed = (fsync temporary (write temporary marker d1).1) in
    let (w, s, c) =
      all_ok_ok (write temporary marker d1).0 flushed.0 (call flushed.1).0 (ap (λ o. o.0) q) in
    let (f, e, whole, synced) = written_whole d d1 p w s in
    (
      f,
      ap (file_of temporary) (sym (ap (λ o. o.1.files) q) ∙ attempt_ok (λ fs. fs) flushed.1 c) ∙ e,
      whole,
      synced,
    )

put_in_place-AllWhole :
    (d : Disk) (f : File)
    → file_of temporary d.files ≡ some f
    → f.content ≡ marker
    → f.synced ≡ length marker
    → WholeDisk d
    → WholeDisk (put_in_place version_file temporary d).1
unfolding put_in_place
put_in_place-AllWhole d f e c s h =
    and_then_elim WholeDisk (or_wrap _ renamed) _ (wrapped-AllWhole _ renamed whole) (λ a d1 q.
      wrapped-AllWhole _ (sync_dir d1) (
        sync_dir-AllWhole d1 (subst WholeDisk (ap (λ o. o.1) (or_wrap_ok _ renamed a d1 q)) whole)))
  where
    renamed : Io (Unit {0})
    renamed = rename temporary version_file d

    whole : WholeDisk renamed.1
    whole = rename-AllWhole d f e c s h

write_file_atomic-AllWhole :
    (d : Disk) → WholeDisk d → WholeDisk (write_file_atomic version_file temporary marker d).1
unfolding write_file_atomic
write_file_atomic-AllWhole d h =
    and_then_elim WholeDisk (or_wrap _ opened) _ (wrapped-AllWhole _ opened whole) (λ a d1 q.
      let p = or_wrap_ok _ opened a d1 q in
      let h1 = subst WholeDisk (ap (λ o. o.1) p) whole in
      and_then_elim WholeDisk (filled temporary marker d1) _ (filled-AllWhole d1 h1) (λ b d2 r.
        let (f, e, c, s) = filled_whole d d1 d2 p r in
        put_in_place-AllWhole d2 f e c s
          (subst WholeDisk (ap (λ o. o.1) r) (filled-AllWhole d1 h1))))
  where
    opened : Io (Unit {0})
    opened = open_truncated temporary d

    whole : WholeDisk opened.1
    whole = open_truncated-AllWhole d h

read_marker-files : (d : Disk) → (read_marker version_file d).1.files ≡ d.files
read_marker-files d = go d.files d.folders d.faults
  where
    go :
        (fs : Files) (folders : List Bytes) (faults : List (Option ℕ))
        → (read_marker version_file
            (record { files = fs; folders = folders; faults = faults })).1.files
          ≡ fs
    go fs folders [] = unfold read_marker in refl
    go fs folders (none ∷ more) = unfold read_marker in refl
    go fs folders (some n ∷ more) = unfold read_marker in refl

read_dir-files : (d : Disk) → (read_dir d).1.files ≡ d.files
read_dir-files d = go d.files d.folders d.faults
  where
    go :
        (fs : Files) (folders : List Bytes) (faults : List (Option ℕ))
        → (read_dir (record { files = fs; folders = folders; faults = faults })).1.files ≡ fs
    go fs folders [] = unfold read_dir in refl
    go fs folders (none ∷ more) = unfold read_dir in refl
    go fs folders (some n ∷ more) = unfold read_dir in refl

initialize_data_dir-AllWhole : (d : Disk) → WholeDisk d → WholeDisk (initialize_data_dir d).1
unfolding initialize_data_dir
initialize_data_dir-AllWhole d h =
    and_then_elim WholeDisk (or_wrap _ (read_dir d)) _ (wrapped-AllWhole _ (read_dir d) same)
      (λ es d1 q.
        let h1 = subst WholeDisk (ap (λ o. o.1) (or_wrap_ok _ (read_dir d) es d1 q)) same in
        if_elim (λ o. WholeDisk o.1) (holds_no_data es)
          (write_file_atomic version_file temporary marker d1) _ (write_file_atomic-AllWhole d1 h1)
          h1)
  where
    same : WholeDisk (read_dir d).1
    same = subst AllWhole (sym (read_dir-files d)) h

prepared-AllWhole : (o : Io (Option Bytes)) → WholeDisk o.1 → WholeDisk (prepared o).1
prepared-AllWhole (err e, d) h = h
prepared-AllWhole (ok (some c), d) h = h
prepared-AllWhole (ok none, d) h = initialize_data_dir-AllWhole d h

pub prepare_data_dir-AllWhole : (d : Disk) → WholeDisk d → WholeDisk (prepare_data_dir d).1
unfolding prepare_data_dir
prepare_data_dir-AllWhole d h =
    and_then_elim WholeDisk (or_wrap _ (call d)) _ (wrapped-AllWhole _ (call d) (call-AllWhole d h))
      (λ a d1 q.
        let h1 =
          subst WholeDisk (ap (λ o. o.1) (or_wrap_ok _ (call d) a d1 q)) (call-AllWhole d h) in
        prepared-AllWhole (read_marker version_file d1)
          (subst AllWhole (sym (read_marker-files d1)) h1))
