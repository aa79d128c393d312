-- ===== src/Storage/Log/Append.antt =====
-- Append keeps the log: it adds its command at the end, or refuses and adds nothing.
use gokvx.Prelude.{
  ℕ, ◌+◌, ◌≡◌, refl, ap, sym, true, false, [], ◌∷◌, ◌++◌, length, take, take_all, none, some, arith,
  ok, err, Result-cases, inl, inr, ◌⊎◌,
}
use mathlib.Core.Path.{subst}
use gokvx.Prelude.Bytes.{Bytes}
use gokvx.Kverr.Error.{GoError, as_error, wrap}
use gokvx.Kverr.Reason.{reason_internal}
use gokvx.Storage.Record.{encode_record}
use gokvx.Storage.Disk.{update, extend, write, fsync}
use gokvx.Storage.Disk.Calls.{fsync-KeepsAll, write_cases}
use gokvx.Storage.Stream.{Commands, Fits}
use gokvx.Storage.Log.{
  FsyncPolicy, always, interval, os, unknown, World, Outcome, sync, commit, write_record, and_then,
}
use gokvx.Storage.Log.Shape.{PartOf, Shape, IsLog}
use gokvx.Storage.Log.Steps.{Shape-keeps, Shape-extend, Shape-commit}

-- A flush clears `dirty`, or records its failure.
abbrev pub Synced : World → Type 0
Synced w =
    (sync w ≡ (
      ok tt,
      record { log = record w.log { dirty = false }; disk = (fsync w.log.active w.disk).1 },
    ))
    ⊎ ((e : GoError) × (sync w ≡ (
      err e,
      record { log = record w.log { failed = some e }; disk = (fsync w.log.active w.disk).1 },
    )))

pub sync_cases : (w : World) → Synced w
unfolding sync
sync_cases w = elim (Result-cases (fsync w.log.active w.disk).0) [
  | inl (x, e) ↦ inl (rw (e, sync))
  | inr (x, e) ↦ inr (as_error (wrap reason_internal x "command log fsync failed"), rw (e, sync))
]

module _ {w : World} {base : ℕ} {cmds : Commands} {junk : Bytes} where
  pub sync-Shape : Shape w base cmds junk → Shape (sync w).1 base cmds junk
  sync-Shape s = elim (sync_cases w) [
    | inl e ↦ rw e (
        Shape-keeps _
          (record {
            segments = refl;
            active = refl;
            last_index = refl;
            active_size = refl;
            failed = λ h. h;
          })
          (fsync-KeepsAll w.log.active w.disk) s)
    | inr (x, e) ↦ rw e (
        Shape-keeps _
          (record {
            segments = refl;
            active = refl;
            last_index = refl;
            active_size = refl;
            failed = λ h. absurd (cc h);
          })
          (fsync-KeepsAll w.log.active w.disk) s)
  ]

-- What an append of `c` does: the command is the next one of the log, or the log has failed and
-- holds what it held.
abbrev pub Appended : Outcome ℕ → ℕ → Commands → Bytes → Type 0
Appended o base cmds c =
    ((o.0 ≡ ok (base + length cmds)) × IsLog o.1 base (cmds ++ c ∷ []) × (o.1.log.failed ≡ none))
    ⊎ ((e : GoError) × (f : GoError) × (o.0 ≡ err e)
        × IsLog o.1 base cmds
        × (o.1.log.failed ≡ some f))

pub IsLog-failed :
    {w : World} {base : ℕ} {cmds : Commands} {junk : Bytes} {f : GoError}
    → w.log.failed ≡ some f
    → Shape w base cmds junk
    → IsLog w base cmds
IsLog-failed p s = record { junk = _; shape = s; clean = λ h. absurd (cc (p, h)) }

IsLog-clean : {w : World} {base : ℕ} {cmds : Commands} → Shape w base cmds [] → IsLog w base cmds
IsLog-clean s = record { junk = []; shape = s; clean = λ h. refl }

PartOf-record : (n : ℕ) (c : Bytes) → Fits c → PartOf n (encode_record n c)
PartOf-record n c h = record {
  command = c;
  size = length (encode_record n c);
  fits = h;
  part = sym (take_all (length (encode_record n c)) (encode_record n c) (omega arith));
}

pub commit-Appended :
    {w : World} {base : ℕ} {cmds : Commands} (c : Bytes) (index : ℕ)
    → Fits c
    → index ≡ base + length cmds
    → w.log.failed ≡ none
    → Shape w base cmds (encode_record index c)
    → Appended (commit index w) base cmds c
unfolding commit
commit-Appended c index hc at fine s =
    inl (ap ok at, IsLog-clean (Shape-commit _ index c hc at fine refl refl refl refl refl s), fine)

synced_commit :
    {w : World} {base : ℕ} {cmds : Commands} (c : Bytes) (index : ℕ)
    → Fits c
    → index ≡ base + length cmds
    → w.log.failed ≡ none
    → Shape w base cmds (encode_record index c)
    → Appended (and_then (sync w) (commit index)) base cmds c
synced_commit {w} {base} {cmds} c index hc at fine s = elim (sync_cases w) [
  | inl e ↦ rw e (
      commit-Appended c index hc at fine (
        subst (λ (o : Outcome (Unit {0})). Shape o.1 base cmds (encode_record index c)) e
          (sync-Shape s)))
  | inr (x, e) ↦ rw e (
      inr (
        x,
        x,
        refl,
        IsLog-failed refl (
            subst (λ (o : Outcome (Unit {0})). Shape o.1 base cmds (encode_record index c)) e
              (sync-Shape s)),
        refl,
      ))
]

-- After the write, the policy decides whether the record is flushed before it counts.
finish_cases :
    {base : ℕ} {cmds : Commands} (p : FsyncPolicy) (w : World) (c : Bytes) (index : ℕ)
    → Appended (and_then (sync w) (commit index)) base cmds c
    → Appended (commit index w) base cmds c
    → Appended
        (elim p [ always ↦ and_then (sync w) (commit index) | _ ↦ commit index w ])
        base
        cmds
        c
finish_cases always w c index a b = a
finish_cases interval w c index a b = b
finish_cases os w c index a b = b
finish_cases unknown w c index a b = b

pub write_record-Appended :
    {w : World} {base : ℕ} {cmds : Commands} (c : Bytes) (index : ℕ)
    → Fits c
    → index ≡ base + length cmds
    → w.log.failed ≡ none
    → Shape w base cmds []
    → Appended (write_record index (encode_record index c) w) base cmds c
unfolding write_record
write_record-Appended {w} {base} {cmds} c index hc at fine s =
    elim (write_cases w.log.active (encode_record index c) w.disk) [
      | inl (r, q) ↦
          rw (r, write_record)
            (finish_cases w.log.cfg.fsync_policy _ c index
              (synced_commit c index hc at fine (written q))
              (commit-Appended c index hc at fine (written q)))
      | inr (e, n, r, q) ↦
          rw (r, write_record) (inr (_, _, refl, IsLog-failed refl (broken _ n q), refl))
    ]
  where
    grown : World
    grown = record {
      log = record w.log {
        active_size = w.log.active_size + length (encode_record index c);
        dirty = true;
      };
      disk = (write w.log.active (encode_record index c) w.disk).1;
    }

    record_part : PartOf (base + length cmds) (encode_record index c)
    record_part = subst (λ i. PartOf i (encode_record index c)) at (PartOf-record index c hc)

    written :
        (write w.log.active (encode_record index c) w.disk).1.files
          ≡ update w.log.active (extend (encode_record index c)) w.disk.files
        → Shape grown base cmds (encode_record index c)
    written q =
        Shape-extend grown (encode_record index c) refl refl refl (λ h. (h, refl)) q record_part s

    broken :
        (f : GoError) (n : ℕ)
        → (write w.log.active (encode_record index c) w.disk).1.files
          ≡ update w.log.active (extend (take n (encode_record index c))) w.disk.files
        → Shape
            (record {
              log = record w.log { failed = some f };
              disk = (write w.log.active (encode_record index c) w.disk).1;
            })
            base
            cmds
            (take n (encode_record index c))
    broken f n q =
        Shape-extend _ (take n (encode_record index c)) refl refl refl (λ h. absurd (cc h)) q
          (record {
            command = c;
            size = n;
            fits = hc;
            part = ap (λ i. take n (encode_record i c)) at;
          })
          s
