-- ===== src/Storage/Version/Whole.antt =====
-- internal/storage/version.go: a data directory that holds nothing but the marker, whole and
-- flushed, and its temporary file; what the calls and a cut of the power leave of it.
use gokvx.Prelude.{
  ℕ, zero, suc, ◌+◌, ◌≤◌, true, Bool-cases, if_elim, All, [], ◌∷◌, ◌++◌, map, length, take, some,
  Option-cases, ok, err, arith, ◌≡◌, refl, ap, sym, ◌∙◌, ◌⊎◌, inl, inr,
}
use gokvx.Prelude.Bytes.{Bytes, bytes_eq, bytes_eq_sound}
use gokvx.Storage.Disk.{
  File, Files, Disk, file_of, update, attempt, extend, flush, link, empty_file, write, fsync, call,
  sync_dir, io_error,
}
use gokvx.Storage.Disk.Frame.{attempt_cases, file_of-update_self}
use gokvx.Storage.Disk.Calls.{write_cases}
use gokvx.Storage.Version.{version_file, temporary, marker}
use gokvx.Storage.Version.Directory.{
  emptied, is_folder, open_truncated, without, placed, rename, Fate, gone, stays, renamed_back,
  shortened, cut_entry, power_cut,
}

-- The temporary file, or the marker whole and flushed.
abbrev pub IsWhole : Bytes × File → Type 0
IsWhole (k, f) =
    (k ≡ temporary) ⊎ ((k ≡ version_file) × (f.content ≡ marker) × (f.synced ≡ length marker))

abbrev pub AllWhole : Files → Type 0
AllWhole = All IsWhole

AllWhole-update : (g : File → File) (fs : Files) → AllWhole fs → AllWhole (update temporary g fs)
unfolding update
AllWhole-update g [] h = tt
AllWhole-update g ((k, f) ∷ fs) (h, hs) = elim (Bool-cases (bytes_eq k temporary)) [
  | inl e ↦ rw e (inl (bytes_eq_sound k temporary e), hs)
  | inr e ↦ rw e (h, AllWhole-update g fs hs)
]

AllWhole-emptied : (fs : Files) → AllWhole fs → AllWhole (emptied temporary fs)
unfolding emptied bytes_eq
AllWhole-emptied fs h = elim (Option-cases (file_of temporary fs)) [
  | inl e ↦ rw (e, emptied) (inl refl, h)
  | inr (f, e) ↦ rw (e, emptied) (AllWhole-update _ fs h)
]

AllWhole-without : (name : Bytes) (fs : Files) → AllWhole fs → AllWhole (without name fs)
unfolding without
AllWhole-without name [] h = tt
AllWhole-without name ((k, f) ∷ fs) (h, hs) = elim (Bool-cases (bytes_eq k name)) [
  | inl e ↦ rw e (AllWhole-without name fs hs)
  | inr e ↦ rw e (h, AllWhole-without name fs hs)
]

AllWhole-link : (fs : Files) → AllWhole fs → AllWhole (map link fs)
unfolding link
AllWhole-link [] h = tt
AllWhole-link ((k, f) ∷ fs) (h, hs) = (h, AllWhole-link fs hs)

take_all : (n : ℕ) (xs : Bytes) → length xs ≤ n → take n xs ≡ xs
take_all zero [] h = refl
take_all zero (x ∷ xs) h = absurd (ground (arith, h))
take_all (suc n) [] h = refl
take_all (suc n) (x ∷ xs) h = ap (λ l. x ∷ l) (take_all n xs (ground (arith, h)))

IsWhole-shortened : (n : ℕ) (k : Bytes) (f : File) → IsWhole (k, f) → IsWhole (k, shortened n f)
unfolding shortened flush
IsWhole-shortened n k f (inl e) = inl e
IsWhole-shortened n k f (inr (e, c, s)) = inr (e, same, ap length same)
  where
    same : take (f.synced + n) f.content ≡ marker
    same = ap (take (f.synced + n)) c ∙ take_all (f.synced + n) marker (omega (arith, s))

AllWhole-cut_entry :
    (fate : Fate) (k : Bytes) (f : File) (rest : Files)
    → IsWhole (k, f)
    → AllWhole rest
    → AllWhole (cut_entry temporary version_file fate (k, f) rest)
unfolding cut_entry
AllWhole-cut_entry gone k f rest h hs = hs
AllWhole-cut_entry stays k f rest h hs = (h, hs)
AllWhole-cut_entry renamed_back k f rest h hs = elim (Bool-cases (bytes_eq k version_file)) [
  | inl e ↦ rw e (inl refl, hs)
  | inr e ↦ rw e (h, hs)
]

pub AllWhole-power_cut :
    (fates : Bytes → Fate × ℕ) (fs : Files)
    → AllWhole fs
    → AllWhole (power_cut temporary version_file fates fs)
unfolding power_cut
AllWhole-power_cut fates [] h = tt
AllWhole-power_cut fates ((k, f) ∷ fs) (h, hs) =
    let rest = AllWhole-power_cut fates fs hs in
    let whole = IsWhole-shortened (fates k).1 k f h in
    elim (Bool-cases f.linked) [
      | inl e ↦ rw e (whole, rest)
      | inr e ↦ rw e (
          AllWhole-cut_entry (fates k).0 k (shortened (fates k).1 f)
            (power_cut temporary version_file fates fs) whole rest)
    ]

attempt-AllWhole :
    (g : Files → Files) (d : Disk)
    → AllWhole (g d.files)
    → AllWhole d.files
    → AllWhole (attempt g d).1.files
attempt-AllWhole g d h k = elim (attempt_cases g d) [ inl (_, p) ↦ rw p h | inr (e, _, p) ↦ rw p k ]

pub open_truncated-AllWhole :
    (d : Disk) → AllWhole d.files → AllWhole (open_truncated temporary d).1.files
unfolding open_truncated
open_truncated-AllWhole d h =
    if_elim (λ o. AllWhole o.1.files) (is_folder temporary d.folders) (err io_error, d)
      (attempt (emptied temporary) d) h
      (attempt-AllWhole (emptied temporary) d (AllWhole-emptied d.files h) h)

pub fsync-AllWhole : (d : Disk) → AllWhole d.files → AllWhole (fsync temporary d).1.files
unfolding fsync
fsync-AllWhole d h = attempt-AllWhole (update temporary flush) d (AllWhole-update flush d.files h) h

pub call-AllWhole : (d : Disk) → AllWhole d.files → AllWhole (call d).1.files
unfolding call
call-AllWhole d h = attempt-AllWhole (λ fs. fs) d h h

pub sync_dir-AllWhole : (d : Disk) → AllWhole d.files → AllWhole (sync_dir d).1.files
unfolding sync_dir
sync_dir-AllWhole d h = attempt-AllWhole (map link) d (AllWhole-link d.files h) h

pub write-AllWhole :
    (bytes : Bytes) (d : Disk) → AllWhole d.files → AllWhole (write temporary bytes d).1.files
write-AllWhole bytes d h = elim (write_cases temporary bytes d) [
  | inl (_, p) ↦ rw p (AllWhole-update (extend bytes) d.files h)
  | inr (e, n, _, p) ↦ rw p (AllWhole-update (extend (take n bytes)) d.files h)
]

-- The temporary file is renamed once it is whole and flushed.
pub rename-AllWhole :
    (d : Disk) (f : File)
    → file_of temporary d.files ≡ some f
    → f.content ≡ marker
    → f.synced ≡ length marker
    → AllWhole d.files
    → AllWhole (rename temporary version_file d).1.files
unfolding rename
rename-AllWhole d f e c s h =
    rw (e, rename)
      (if_elim (λ o. AllWhole o.1.files) (is_folder version_file d.folders) (err io_error, d)
        (attempt g d) h (attempt-AllWhole g d done h))
  where
    g : Files → Files
    g = placed temporary version_file f

    done : AllWhole (g d.files)
    done =
        unfold placed in
        (inr (refl, c, s), AllWhole-without version_file _ (AllWhole-without temporary d.files h))

-- An attempt that succeeds has changed the files.
pub attempt_ok :
    (g : Files → Files) (d : Disk) → (attempt g d).0 ≡ ok tt → (attempt g d).1.files ≡ g d.files
attempt_ok g d h = elim (attempt_cases g d) [ inl (_, p) ↦ p | inr (e, q, _) ↦ absurd (cc) ]

write_ok :
    (bytes : Bytes) (d : Disk)
    → (write temporary bytes d).0 ≡ ok tt
    → (write temporary bytes d).1.files ≡ update temporary (extend bytes) d.files
write_ok bytes d h = elim (write_cases temporary bytes d) [
  | inl (_, p) ↦ p
  | inr (e, n, q, _) ↦ absurd (cc)
]

emptied_file :
    (fs : Files)
    → (f : File) × (file_of temporary (emptied temporary fs) ≡ some f) × (f.content ≡ [])
unfolding emptied bytes_eq
emptied_file fs = elim (Option-cases (file_of temporary fs)) [
  | inl e ↦ rw (e, emptied) (empty_file, unfold file_of in refl, refl)
  | inr (f, e) ↦
      rw (e, emptied)
        (
          record f { content = []; synced = 0 },
          file_of-update_self temporary (λ x. record x { content = []; synced = 0 }) fs f e,
          refl,
        )
]

open_ok :
    (d : Disk)
    → (open_truncated temporary d).0 ≡ ok tt
    → (open_truncated temporary d).1.files ≡ emptied temporary d.files
unfolding open_truncated
open_ok d h = elim (Bool-cases (is_folder temporary d.folders)) [
  | inl e ↦ absurd (taken e h)
  | inr e ↦ rw (e, open_truncated) (attempt_ok (emptied temporary) d (rw (open_truncated, e) at h))
]
  where
    taken : is_folder temporary d.folders ≡ true → (open_truncated temporary d).0 ≡ ok tt → ⊥
    taken e p = ground (arith, e, p)

-- A write and a flush that succeed, after the file was opened, leave it whole.
pub written_whole :
    (d d1 : Disk)
    → open_truncated temporary d ≡ (ok tt, d1)
    → (write temporary marker d1).0 ≡ ok tt
    → (fsync temporary (write temporary marker d1).1).0 ≡ ok tt
    → (f : File) × (file_of temporary (fsync temporary (write temporary marker d1).1).1.files
        ≡ some f)
      × (f.content ≡ marker)
      × (f.synced ≡ length marker)
unfolding fsync flush extend
written_whole d d1 p q r =
    let (f, e, c) = emptied_file d.files in
    let d2 = (write temporary marker d1).1 in
    let at1 =
      ap (file_of temporary) (sym (ap (λ o. o.1.files) p) ∙ open_ok d (ap (λ o. o.0) p)) ∙ e in
    let at2 =
      ap (file_of temporary) (write_ok marker d1 q)
      ∙ file_of-update_self temporary (extend marker) d1.files f at1 in
    let at3 =
      ap (file_of temporary) (attempt_ok (update temporary flush) d2 r)
      ∙ file_of-update_self temporary flush d2.files (extend marker f) at2 in
    (flush (extend marker f), at3, ap (λ l. l ++ marker) c, ap (λ l. length (l ++ marker)) c)
