-- ===== src/Storage/Log/Rotate.antt =====
-- Rotation starts an empty segment behind the records that the log holds, or changes none of them.
use gokvx.Prelude.{
  ℕ, ◌+◌, ◌≤◌, ◌<◌, ◌≡◌, refl, true, [], length, none, some, arith, ok, err, Result-cases, if_elim,
  Option-cases, inl, inr, ◌⊎◌,
}
use mathlib.Core.Path.{subst}
use gokvx.Prelude.Bytes.{Bytes}
use gokvx.Prelude.Words.{u64_mod, sub64, sub64_fits}
use gokvx.Kverr.Error.{GoError}
use gokvx.Storage.Segment.{segment_name}
use gokvx.Storage.Disk.{Files, empty_file, Disk, file_of, call, create, sync_dir}
use gokvx.Storage.Disk.Frame.{KeepsAt, KeepsAll, KeepsAt-trans}
use gokvx.Storage.Disk.Calls.{
  call-KeepsAll, sync_dir-KeepsAll, create-KeepsAll, create_new, sync_dir_linked,
}
use gokvx.Storage.Stream.{Commands}
use gokvx.Storage.Log.{Log, World, Outcome, sync, create_segment, start_segment, rotate, and_then}
use gokvx.Storage.Log.Shape.{Shape}
use gokvx.Storage.Log.Steps.{SameLog, Shape-keeps, Shape-start}
use gokvx.Storage.Log.Append.{sync_cases, sync-Shape}

pub KeepsAll-trans : (a b c : Files) → KeepsAll a b → KeepsAll b c → KeepsAll a c
KeepsAll-trans a b c p q k = KeepsAt-trans k a b c (p k) (q k)

pub create_segment-KeepsAll : (p : Bytes) (d : Disk) → KeepsAll d.files (create_segment p d).1.files
unfolding create_segment
create_segment-KeepsAll p d = elim (Result-cases (create p d).0) [
  | inr (x, e) ↦ rw (e, create_segment) (create-KeepsAll p d)
  | inl (_, e) ↦ elim (Result-cases (sync_dir (create p d).1).0) [
    | inl (_, f) ↦ rw (e, create_segment, f) two
    | inr (x, f) ↦
        rw (e, create_segment, f)
          (KeepsAll-trans _ _ _ two (call-KeepsAll (sync_dir (create p d).1).1))
  ]
]
  where
    two : KeepsAll d.files (sync_dir (create p d).1).1.files
    two = KeepsAll-trans _ _ _ (create-KeepsAll p d) (sync_dir-KeepsAll (create p d).1)

-- A segment that was created is a new file, empty, whose directory entry is on disk.
pub create_segment_new :
    (p : Bytes) (d : Disk)
    → (create_segment p d).0 ≡ ok tt
    → (file_of p d.files ≡ none)
      × (file_of p (create_segment p d).1.files
          ≡ some (record { content = []; synced = 0; linked = true }))
unfolding create_segment
create_segment_new p d h = elim (Result-cases (create p d).0) [
  | inr (x, e) ↦ absurd (cc (e, h))
  | inl (_, e) ↦ elim (Result-cases (sync_dir (create p d).1).0) [
    | inl (_, f) ↦ (
      (create_new p d e).0,
      rw (e, create_segment, f) (sync_dir_linked p (create p d).1 _ f (create_new p d e).1),
    )
    | inr (x, f) ↦ absurd (bad x e f h)
  ]
]
  where
    bad :
        (x : GoError)
        → (create p d).0 ≡ ok tt
        → (sync_dir (create p d).1).0 ≡ err x
        → (create_segment p d).0 ≡ ok tt
        → ⊥
    bad x e f h = ground (arith, e, f, h)

KeepsAt-free : {k : Bytes} {a b : Files} → KeepsAt k a b → file_of k b ≡ none → file_of k a ≡ none
KeepsAt-free {k} {a} h p = elim (Option-cases (file_of k a)) [
  | inl e ↦ e
  | inr (f, e) ↦ let (f', q, _, _) = h.at f e in absurd (cc (p, q))
]

-- The outcome of a rotation: the same commands, with nothing behind them.
abbrev pub Rotated : Outcome (Unit {0}) → ℕ → Commands → Type 0
Rotated o base cmds =
    ((o.0 ≡ ok tt) × Shape o.1 base cmds [] × (o.1.log.failed ≡ none))
    ⊎ ((e : GoError) × (o.0 ≡ err e) × Shape o.1 base cmds [])

same : {l : Log} → SameLog l l
same = record {
  segments = refl;
  active = refl;
  last_index = refl;
  active_size = refl;
  failed = λ h. h;
}

start_segment-Rotated :
    {w : World} {base : ℕ} {cmds : Commands} (next : ℕ)
    → next ≡ base + length cmds
    → 1 ≤ next
    → next < u64_mod
    → w.log.failed ≡ none
    → Shape w base cmds []
    → Rotated (start_segment next w) base cmds
unfolding start_segment
start_segment-Rotated {w} {base} {cmds} next at pos small fine s =
    elim (Result-cases (call w.disk).0) [
      | inr (x, e) ↦
          rw (e, start_segment) (inr (_, refl, Shape-keeps _ same (call-KeepsAll w.disk) s))
      | inl (_, e) ↦ elim (Result-cases (create_segment (segment_name next) (call w.disk).1).0) [
        | inr (x, f) ↦ rw (e, start_segment, f) (inr (_, refl, Shape-keeps _ same both s))
        | inl (_, f) ↦
            let (free, made) = create_segment_new (segment_name next) (call w.disk).1 f in
            rw (e, start_segment, f)
              (inl (
                refl,
                Shape-start _
                    (record { first = next; last = sub64 next 1; path = segment_name next })
                    (record empty_file { linked = true }) (before_free free) both made refl refl at
                    (rw (sub64_fits next 1 small pos) (omega arith)) refl refl refl refl s,
                fine,
              ))
      ]
    ]
  where
    before_free :
        file_of (segment_name next) (call w.disk).1.files ≡ none
        → file_of (segment_name next) w.disk.files ≡ none
    before_free p = KeepsAt-free (call-KeepsAll w.disk (segment_name next)) p

    both : KeepsAll w.disk.files (create_segment (segment_name next) (call w.disk).1).1.files
    both =
        KeepsAll-trans _ _ _ (call-KeepsAll w.disk)
          (create_segment-KeepsAll (segment_name next) (call w.disk).1)

pub rotate-Rotated :
    {w : World} {base : ℕ} {cmds : Commands} (next : ℕ)
    → next ≡ base + length cmds
    → 1 ≤ next
    → next < u64_mod
    → w.log.failed ≡ none
    → Shape w base cmds []
    → Rotated (rotate next w) base cmds
unfolding rotate
rotate-Rotated {w} {base} {cmds} next at pos small fine s =
    if_elim (λ o. Rotated o base cmds) w.log.dirty _ _ flushed
      (start_segment-Rotated next at pos small fine s)
  where
    moved : {o : Outcome (Unit {0})} → sync w ≡ o → Shape o.1 base cmds []
    moved f = subst (λ (o : Outcome (Unit {0})). Shape o.1 base cmds []) f (sync-Shape s)

    flushed : Rotated (and_then (sync w) (start_segment next)) base cmds
    flushed = elim (sync_cases w) [
      | inl f ↦ rw f (start_segment-Rotated next at pos small fine (moved f))
      | inr (x, f) ↦ rw f (inr (x, refl, moved f))
    ]
