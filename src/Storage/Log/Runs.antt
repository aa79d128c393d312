-- ===== src/Storage/Log/Runs.antt =====
-- The steps of concurrent callers in any order: appends, ticks of the background syncer, and the
-- two parts of Close. Each runs under the mutex, so a schedule is a list of steps.
use gokvx.Prelude.{
  ℕ, suc, ◌+◌, ◌≤◌, ◌<◌, ◌≡◌, refl, ap, ◌∙◌, sym, List, [], ◌∷◌, ◌++◌, length, length-append,
  append_assoc, append-nil, Option, none, arith, Result, ok, err, inl, inr, if_elim, Result-cases,
}
use mathlib.Core.Path.{subst}
use gokvx.Prelude.Bytes.{Bytes}
use gokvx.Prelude.Words.{u64_mod}
use gokvx.Kverr.Error.{GoError}
use gokvx.Storage.Disk.{call}
use gokvx.Storage.Disk.Calls.{call-KeepsAll}
use gokvx.Storage.Disk.Frame.{KeepsAt-refl}
use gokvx.Storage.Stream.{Commands}
use gokvx.Storage.Log.{
  World, Outcome, sync, append, sync_if_dirty, close_begin, close_sync, close_finish,
}
use gokvx.Storage.Log.Shape.{IsLog}
use gokvx.Storage.Log.Steps.{Shape-keeps}
use gokvx.Storage.Log.Append.{sync_cases, sync-Shape}
use gokvx.Storage.Log.Total.{append-total}

pub data Event : Type 0 where
  appends : Option GoError → Bytes → Event
  tick closes ends_close : Event

step : Event → World → World
step (appends ctx c) w = (append ctx c w).1
step tick w = sync_if_dirty w
step closes w = (close_begin w).1
step ends_close w = (close_finish w).1

-- The index and the command of an append that answered.
answer : Result GoError ℕ → Bytes → List (ℕ × Bytes)
answer (ok i) c = (i, c) ∷ []
answer (err e) c = []

acknowledged : Event → World → List (ℕ × Bytes)
unfolding answer
acknowledged (appends ctx c) w = answer (append ctx c w).0 c
acknowledged tick w = []
acknowledged closes w = []
acknowledged ends_close w = []

pub run : List Event → World → World
unfolding step
run [] w = w
run (e ∷ es) w = run es (step e w)

pub acks : List Event → World → List (ℕ × Bytes)
unfolding acknowledged step
acks [] w = []
acks (e ∷ es) w = acknowledged e w ++ acks es (step e w)

-- Commands with consecutive indices.
abbrev pub numbered : ℕ → Commands → List (ℕ × Bytes)
numbered i [] = []
numbered i (c ∷ cs) = (i, c) ∷ numbered (suc i) cs

module _ {w : World} {base : ℕ} {cmds : Commands} (l : IsLog w base cmds) where
  sync-IsLog : IsLog (sync w).1 base cmds
  sync-IsLog = record { junk = l.junk; shape = sync-Shape l.shape; clean = λ h. l.clean (still h) }
    where
      still : (sync w).1.log.failed ≡ none → w.log.failed ≡ none
      still h = elim (sync_cases w) [
        | inl e ↦ sym (ap (λ (o : Outcome (Unit {0})). o.1.log.failed) e) ∙ h
        | inr (x, e) ↦ absurd (cc (ap (λ (o : Outcome (Unit {0})). o.1.log.failed) e, h))
      ]

  tick-IsLog : IsLog (sync_if_dirty w) base cmds
  unfolding sync_if_dirty
  tick-IsLog = if_elim (λ u. IsLog u base cmds) _ w (sync w).1 l sync-IsLog

  closes-IsLog : IsLog (close_begin w).1 base cmds
  unfolding close_begin
  closes-IsLog = record {
    junk = l.junk;
    shape =
        Shape-keeps _
          (record {
            segments = refl;
            active = refl;
            last_index = refl;
            active_size = refl;
            failed = λ h. h;
          })
          (λ k. KeepsAt-refl k w.disk.files) l.shape;
    clean = l.clean;
  }

  close_sync-IsLog : IsLog (close_sync w).1 base cmds
  unfolding close_sync
  close_sync-IsLog =
      if_elim (λ (o : Outcome (Unit {0})). IsLog o.1 base cmds) _ (sync w) (ok tt, w) sync-IsLog l

  called : {u : World} → IsLog u base cmds → IsLog (record u { disk = (call u.disk).1 }) base cmds
  called {u} m = record {
    junk = m.junk;
    shape =
        Shape-keeps _
          (record {
            segments = refl;
            active = refl;
            last_index = refl;
            active_size = refl;
            failed = λ h. h;
          })
          (call-KeepsAll u.disk) m.shape;
    clean = m.clean;
  }

  ends_close-IsLog : IsLog (close_finish w).1 base cmds
  unfolding close_finish
  ends_close-IsLog = elim (Result-cases (call (close_sync w).1.disk).0) [
    | inl (_, e) ↦ rw (e, close_finish) (called close_sync-IsLog)
    | inr (x, e) ↦ rw (e, close_finish) (called close_sync-IsLog)
  ]

-- The commands of acknowledged appends.
abbrev pub commands : List (ℕ × Bytes) → Commands
commands [] = []
commands ((i, c) ∷ as') = c ∷ commands as'

one_more :
    (base : ℕ) (cmds : Commands) (c : Bytes)
    → base + length (cmds ++ c ∷ []) ≡ suc (base + length cmds)
one_more base cmds c = rw length-append (omega arith)

-- Whatever the order of the steps and whatever fails on the way, the log holds what it held and
-- then the acknowledged commands in the order of their answers, whose indices count on without a
-- gap, while the indices stay below 2^64.
pub run-IsLog :
    (es : List Event) (w : World) (base : ℕ) (cmds : Commands)
    → IsLog w base cmds
    → 1 ≤ base
    → base + length cmds + length es < u64_mod
    → IsLog (run es w) base (cmds ++ commands (acks es w))
      × (acks es w ≡ numbered (base + length cmds) (commands (acks es w)))
unfolding run acks
run-IsLog [] w base cmds l pos small = (subst (IsLog w base) (sym (append-nil cmds)) l, refl)
run-IsLog (appends ctx c ∷ es) w base cmds l pos small =
    elim (append-total c l pos (omega arith) ctx) [
      | inr (e, p, l', _) ↦ rw p (run-IsLog es (append ctx c w).1 base cmds l' pos (omega arith))
      | inl (p, l') ↦
          let (m, n) =
            run-IsLog es (append ctx c w).1 base (cmds ++ c ∷ []) l' pos
              (rw length-append (omega arith)) in
          rw p (
            subst (IsLog (run es (append ctx c w).1) base) (append_assoc cmds (c ∷ []) _) m,
            ap (λ (t : List (ℕ × Bytes)). (base + length cmds, c) ∷ t)
                (n
                  ∙ ap (λ i. numbered i (commands (acks es (append ctx c w).1)))
                      (one_more base cmds c)),
          )
    ]
run-IsLog (tick ∷ es) w base cmds l pos small =
    run-IsLog es (sync_if_dirty w) base cmds (tick-IsLog l) pos (omega arith)
run-IsLog (closes ∷ es) w base cmds l pos small =
    run-IsLog es (close_begin w).1 base cmds (closes-IsLog l) pos (omega arith)
run-IsLog (ends_close ∷ es) w base cmds l pos small =
    run-IsLog es (close_finish w).1 base cmds (ends_close-IsLog l) pos (omega arith)
