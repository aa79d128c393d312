-- ===== src/Storage/Disk/Calls.antt =====
-- The calls that the command log makes, by what they may do to the files.
use gokvx.Prelude.{
  ℕ, true, ◌≡◌, refl, List, [], ◌∷◌, map, take, Option, none, some, ok, err, arith, ◌⊎◌, inl, inr,
  Option-cases,
}
use gokvx.Prelude.Bytes.{Bytes, bytes_eq_refl}
use gokvx.Kverr.Error.{GoError}
use gokvx.Storage.Disk.{
  File, Files, Disk, file_of, update, attempt, write, extend, flush, fsync, call, create,
  empty_file, link, sync_dir,
}
use gokvx.Storage.Disk.Frame.{
  KeepsAt-refl, KeepsAt-flush, KeepsAt-link, KeepsAt-create, KeepsAll, attempt_cases, file_of-link,
}

attempt-KeepsAll :
    (g : Files → Files) (d : Disk)
    → KeepsAll d.files (g d.files)
    → KeepsAll d.files (attempt g d).1.files
attempt-KeepsAll g d h k = elim (attempt_cases g d) [
  | inl (_, p) ↦ rw p (h k)
  | inr (e, _, p) ↦ rw p (KeepsAt-refl k d.files)
]

pub fsync-KeepsAll : (p : Bytes) (d : Disk) → KeepsAll d.files (fsync p d).1.files
unfolding fsync
fsync-KeepsAll p d = attempt-KeepsAll (update p flush) d (λ k. KeepsAt-flush p k d.files)

pub call-KeepsAll : (d : Disk) → KeepsAll d.files (call d).1.files
unfolding call
call-KeepsAll d = attempt-KeepsAll (λ fs. fs) d (λ k. KeepsAt-refl k d.files)

pub sync_dir-KeepsAll : (d : Disk) → KeepsAll d.files (sync_dir d).1.files
unfolding sync_dir
sync_dir-KeepsAll d = attempt-KeepsAll (map link) d (λ k. KeepsAt-link k d.files)

pub create-KeepsAll : (p : Bytes) (d : Disk) → KeepsAll d.files (create p d).1.files
unfolding create
create-KeepsAll p d k = elim (Option-cases (file_of p d.files)) [
  | inr (f, e) ↦ rw (e, create) (KeepsAt-refl k d.files)
  | inl e ↦
      rw (e, create)
        (attempt-KeepsAll (λ fs. (p, empty_file) ∷ fs) d
          (λ j. KeepsAt-create p j empty_file d.files e) k)
]

-- A file is created only where there was none, and it is empty.
pub create_new :
    (p : Bytes) (d : Disk)
    → (create p d).0 ≡ ok tt
    → (file_of p d.files ≡ none) × (file_of p (create p d).1.files ≡ some empty_file)
unfolding create
create_new p d h = elim (Option-cases (file_of p d.files)) [
  | inr (f, e) ↦ absurd (taken f e h)
  | inl e ↦ elim (attempt_cases (λ fs. (p, empty_file) ∷ fs) d) [
    | inl (_, q) ↦ (e, rw (e, create) (rw q (unfold file_of in rw bytes_eq_refl)))
    | inr (x, q, _) ↦ absurd (refused x e q h)
  ]
]
  where
    taken : (f : File) → file_of p d.files ≡ some f → (create p d).0 ≡ ok tt → ⊥
    taken f e h = unfold create in cc

    refused :
        (x : GoError)
        → file_of p d.files ≡ none
        → (attempt (λ fs. (p, empty_file) ∷ fs) d).0 ≡ err x
        → (create p d).0 ≡ ok tt
        → ⊥
    refused x e q h = ground (arith, e, q, h)

pub sync_dir_linked :
    (p : Bytes) (d : Disk) (f : File)
    → (sync_dir d).0 ≡ ok tt
    → file_of p d.files ≡ some f
    → file_of p (sync_dir d).1.files ≡ some (record f { linked = true })
unfolding sync_dir
sync_dir_linked p d f h e = elim (attempt_cases (map link) d) [
  | inl (_, q) ↦ rw q (file_of-link p d.files f e)
  | inr (x, q, _) ↦ absurd (cc)
]

-- A write appends all its bytes, or fails behind some of them.
abbrev pub Wrote : Bytes → Bytes → Disk → Type 0
Wrote p bytes d =
    (((write p bytes d).0 ≡ ok tt) × ((write p bytes d).1.files ≡ update p (extend bytes) d.files))
    ⊎ ((e : GoError) × (n : ℕ) × ((write p bytes d).0 ≡ err e)
        × ((write p bytes d).1.files ≡ update p (extend (take n bytes)) d.files))

pub write_cases : (p bytes : Bytes) (d : Disk) → Wrote p bytes d
write_cases p bytes d = go d.files d.folders d.faults
  where
    go :
        (fs : Files) (folders : List Bytes) (faults : List (Option ℕ))
        → Wrote p bytes (record { files = fs; folders = folders; faults = faults })
    go fs folders [] = unfold write in inl (refl, refl)
    go fs folders (none ∷ more) = unfold write in inl (refl, refl)
    go fs folders (some n ∷ more) = unfold write in inr (_, n, refl, refl)
