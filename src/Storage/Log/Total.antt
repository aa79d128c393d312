-- ===== src/Storage/Log/Total.antt =====
-- What Append and the syncer do on every branch.
use gokvx.Prelude.{
  ℕ, ◌+◌, ◌≤◌, ◌<◌, ◌≡◌, refl, ◌∙◌, true, [], ◌∷◌, ◌++◌, length, Option, none, some, arith, ok, err,
  Option-cases, inl, inr, ◌⊎◌, if_elim, if_split, ltb,
}
use mathlib.Core.Path.{subst}
use gokvx.Prelude.Bytes.{Bytes}
use gokvx.Prelude.Words.{u64_mod, add64, add64_fits}
use gokvx.Kverr.Error.{GoError}
use gokvx.Storage.Record.{encode_record, max_command_size}
use gokvx.Storage.Stream.{Commands, Fits}
use gokvx.Storage.Log.{
  Log, World, Outcome, writable, write_record, must_rotate, append_locked, append, context_error,
  and_then, mark_failed,
}
use gokvx.Storage.Log.Shape.{Shape, IsLog}
use gokvx.Storage.Log.Steps.{Shape-keeps}
use gokvx.Storage.Disk.Frame.{KeepsAt-refl}
use gokvx.Storage.Log.Append.{Appended, write_record-Appended, IsLog-failed}
use gokvx.Storage.Log.Rotate.{Rotated, rotate-Rotated}

then_write :
    {base : ℕ} {cmds : Commands} (o : Outcome (Unit {0})) (c : Bytes) (index : ℕ)
    → Fits c
    → index ≡ base + length cmds
    → Rotated o base cmds
    → Appended (and_then (mark_failed o) (write_record index (encode_record index c))) base cmds c
then_write (ok _, w) c index hc at (inl (_, s, fine)) = write_record-Appended c index hc at fine s
then_write (ok _, w) c index hc at (inr (e, p, s)) = absurd (cc p)
then_write (err e, w) c index hc at (inl (p, s, fine)) = absurd (cc p)
then_write (err e, w) c index hc at (inr (_, p, s)) = inr (
  e,
  e,
  refl,
  IsLog-failed refl (
      Shape-keeps _
        (record {
          segments = refl;
          active = refl;
          last_index = refl;
          active_size = refl;
          failed = λ h. absurd (cc h);
        })
        (λ k. KeepsAt-refl k w.disk.files) s),
  refl,
)

-- What Append may do: the command is the next one of the log, or it answers an error and the log
-- holds what it held; then either nothing changed, or a failure is recorded.
abbrev pub AppendTotal : Outcome ℕ → World → ℕ → Commands → Bytes → Type 0
AppendTotal o w base cmds c =
    ((o.0 ≡ ok (base + length cmds)) × IsLog o.1 base (cmds ++ c ∷ []))
    ⊎ ((e : GoError) × (o.0 ≡ err e)
        × IsLog o.1 base cmds
        × ((o.1 ≡ w) ⊎ ((f : GoError) × (o.1.log.failed ≡ some f))))

from_Appended :
    {w : World} {base : ℕ} {cmds : Commands} (c : Bytes) (o : Outcome ℕ)
    → Appended o base cmds c
    → AppendTotal o w base cmds c
from_Appended c o (inl (p, l, _)) = inl (p, l)
from_Appended c o (inr (e, f, p, l, q)) = inr (e, p, l, inr (f, q))

writable_fine : (l : Log) → writable l ≡ none → l.failed ≡ none
unfolding writable
writable_fine l h = ground arith

module _ {w : World} {base : ℕ} {cmds : Commands} (c : Bytes) (l : IsLog w base cmds)
    (pos : 1 ≤ base) (small : base + length cmds < u64_mod) where
  unclean : w.log.failed ≡ none → Shape w base cmds []
  unclean fine = subst (Shape w base cmds) (l.clean fine) l.shape

  index_eq : add64 w.log.last_index 1 ≡ base + length cmds
  index_eq = add64_fits w.log.last_index 1 (omega (arith, l.shape.last_eq)) ∙ l.shape.last_eq

  append_locked-total : Fits c → AppendTotal (append_locked c w) w base cmds c
  unfolding append_locked
  append_locked-total hc = elim (Option-cases (writable w.log)) [
    | inr (e, p) ↦ rw (p, append_locked) (inr (e, refl, l, inl refl))
    | inl p ↦
        let fine = writable_fine w.log p in
        let s = unclean fine in
        rw (p, append_locked)
          (if_elim (λ o. AppendTotal o w base cmds c)
            (must_rotate (length (encode_record (add64 w.log.last_index 1) c)) w.log) _ _
            (from_Appended c _ (
              then_write _ c _ hc index_eq
                (rotate-Rotated _ index_eq (rw index_eq (omega arith)) (rw index_eq small) fine s)))
            (from_Appended c _ (write_record-Appended c _ hc index_eq fine s)))
  ]

  -- Append on a log of the invariant whose next index is below 2^64, for every command, every state of the context and every fault of the disk: it answers
  -- the next index and the log then holds the command behind what it held, or it answers an error
  -- and the log holds what it held; after an error either nothing changed or a failure is recorded.
  pub append-total : (ctx : Option GoError) → AppendTotal (append ctx c w) w base cmds c
  unfolding append
  append-total ctx = elim (Option-cases (context_error ctx)) [
    | inr (e, p) ↦ rw (p, append) (inr (e, refl, l, inl refl))
    | inl p ↦
        rw (p, append)
          (if_split (λ o. AppendTotal o w base cmds c) (ltb max_command_size (length c)) _ _
            (λ _. inr (_, refl, l, inl refl)) (λ h. append_locked-total (ground arith)))
  ]

not_writable :
    (l : Log) → (l.closed ≡ true) ⊎ ((f : GoError) × (l.failed ≡ some f)) → writable l ≡ none → ⊥
unfolding writable
not_writable l (inl c) p = ground (arith, c, p)
not_writable l (inr (f, q)) p = ground (arith, q, p)

-- A log that was closed, or that has failed, refuses every command and stays as it is.
pub append_refused :
    (w : World) (ctx : Option GoError) (c : Bytes)
    → (w.log.closed ≡ true) ⊎ ((f : GoError) × (w.log.failed ≡ some f))
    → (e : GoError) × (append ctx c w ≡ (err e, w))
unfolding append
append_refused w ctx c h = elim (Option-cases (context_error ctx)) [
  | inr (e, p) ↦ (e, rw (p, append))
  | inl p ↦
      rw (p, append)
        (if_elim (λ (o : Outcome ℕ). (e : GoError) × (o ≡ (err e, w)))
          (ltb max_command_size (length c)) _ _ (_, refl) locked)
]
  where
    locked : (e : GoError) × (append_locked c w ≡ (err e, w))
    locked = elim (Option-cases (writable w.log)) [
      | inr (e, p) ↦ (e, unfold append_locked in rw (p, append_locked))
      | inl p ↦ absurd (not_writable w.log h p)
    ]
