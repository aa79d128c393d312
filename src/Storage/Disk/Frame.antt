-- ===== src/Storage/Disk/Frame.antt =====
-- What a call leaves of a file: its content, and that its directory entry was flushed.
use gokvx.Prelude.{
  ℕ, true, ◌≡◌, ◌≢◌, refl, ◌∙◌, List, [], ◌∷◌, map, Option, none, some, ok, err, arith, ◌⊎◌,
  Bool-cases, inl, inr,
}
use gokvx.Prelude.Bytes.{Bytes, bytes_eq, bytes_eq_sound, bytes_eq_iff}
use gokvx.Kverr.Error.{GoError}
use gokvx.Storage.Disk.{File, Files, Disk, file_of, update, attempt, flush, link}

pub file_of-update_self :
    (k : Bytes) (g : File → File) (fs : Files) (f : File)
    → file_of k fs ≡ some f
    → file_of k (update k g fs) ≡ some (g f)
unfolding file_of update
file_of-update_self k g [] f h = absurd (cc)
file_of-update_self k g ((j, x) ∷ fs) f h =
    ground (arith, file_of-update_self k g fs f, bytes_eq_iff j k)

pub file_of-update_ne :
    (j k : Bytes) (g : File → File) (fs : Files) → j ≢ k → file_of k (update j g fs) ≡ file_of k fs
unfolding file_of update
file_of-update_ne j k g [] h = refl
file_of-update_ne j k g ((i, x) ∷ fs) h =
    ground (arith, bytes_eq_iff i j, bytes_eq_iff i k, file_of-update_ne j k g fs h)

-- The file `k` is still there, with the same content, and linked if it was.
pub record KeepsAt (k : Bytes) (fs fs' : Files) : Type 0 where
  pub at :
      (f : File)
      → file_of k fs ≡ some f
      → (f' : File) × (file_of k fs' ≡ some f')
        × (f'.content ≡ f.content)
        × (f.linked ≡ true → f'.linked ≡ true)

pub KeepsAt-refl : (k : Bytes) (fs : Files) → KeepsAt k fs fs
KeepsAt-refl k fs = record { at = λ f h. (f, h, refl, λ l. l) }

pub KeepsAt-trans : (k : Bytes) (a b c : Files) → KeepsAt k a b → KeepsAt k b c → KeepsAt k a c
KeepsAt-trans k a b c p q = record {
  at = λ f h.
      let (f1, h1, e1, l1) = p.at f h in
      let (f2, h2, e2, l2) = q.at f1 h1 in (f2, h2, e2 ∙ e1, λ l. l2 (l1 l));
}

pub KeepsAt-update_ne :
    (j k : Bytes) (g : File → File) (fs : Files) → j ≢ k → KeepsAt k fs (update j g fs)
KeepsAt-update_ne j k g fs h = record {
  at = λ f p. (f, file_of-update_ne j k g fs h ∙ p, refl, λ l. l);
}

pub KeepsAt-flush : (j k : Bytes) (fs : Files) → KeepsAt k fs (update j flush fs)
unfolding flush
KeepsAt-flush j k fs = elim (Bool-cases (bytes_eq j k)) [
  | inl e ↦ record {
    at = λ f p.
        (flush f, rw (bytes_eq_sound j k e) (file_of-update_self k flush fs f p), refl, λ l. l);
  }
  | inr e ↦ KeepsAt-update_ne j k flush fs (λ p. ground (arith, e, bytes_eq_iff j k))
]

pub file_of-link :
    (k : Bytes) (fs : Files) (f : File)
    → file_of k fs ≡ some f
    → file_of k (map link fs) ≡ some (record f { linked = true })
unfolding file_of link
file_of-link k [] f h = absurd (cc)
file_of-link k ((j, x) ∷ fs) f h = ground (arith, file_of-link k fs f)

pub KeepsAt-link : (k : Bytes) (fs : Files) → KeepsAt k fs (map link fs)
KeepsAt-link k fs = record {
  at = λ f p. (record f { linked = true }, file_of-link k fs f p, refl, λ l. refl);
}

-- A new file hides none, since its name was free.
pub KeepsAt-create :
    (j k : Bytes) (new : File) (fs : Files) → file_of j fs ≡ none → KeepsAt k fs ((j, new) ∷ fs)
KeepsAt-create j k new fs h = record { at = λ f p. (f, behind f p, refl, λ l. l) }
  where
    behind : (f : File) → file_of k fs ≡ some f → file_of k ((j, new) ∷ fs) ≡ some f
    behind f p = unfold file_of in ground (arith, h, p, bytes_eq_iff j k)

abbrev pub KeepsAll : Files → Files → Type 0
KeepsAll fs fs' = (k : Bytes) → KeepsAt k fs fs'

-- A call succeeds and changes the files, or fails and does not.
abbrev pub Attempted : (Files → Files) → Disk → Type 0
Attempted g d =
    (((attempt g d).0 ≡ ok tt) × ((attempt g d).1.files ≡ g d.files))
    ⊎ ((e : GoError) × ((attempt g d).0 ≡ err e) × ((attempt g d).1.files ≡ d.files))

pub attempt_cases : (g : Files → Files) (d : Disk) → Attempted g d
attempt_cases g d = go d.files d.folders d.faults
  where
    go :
        (fs : Files) (folders : List Bytes) (faults : List (Option ℕ))
        → Attempted g (record { files = fs; folders = folders; faults = faults })
    go fs folders [] = unfold attempt in inl (refl, refl)
    go fs folders (none ∷ more) = unfold attempt in inl (refl, refl)
    go fs folders (some n ∷ more) = unfold attempt in inr (_, refl, refl)
