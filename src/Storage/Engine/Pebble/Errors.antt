-- ===== src/Storage/Engine/Pebble/Errors.antt =====
-- internal/storage/pebble.go: what the adapter makes of the errors of Pebble.
use gokvx.Prelude.{
  Bool, Bool-cases, Option-cases, Result-cases, String, Option, none, some, Result, ok, err, ◌≡◌,
  refl, inl, inr,
}
use mathlib.Core.Path.{subst}
use gokvx.Prelude.Bytes.{Bytes}
use gokvx.Kverr.Error.{GoError, plain, reason_of, as_error, new, wrap, reason_found, find_error}
use gokvx.Kverr.Reason.{reason_internal, registered, info_of, reasons}
use gokvx.Storage.Log.{context_error}
use gokvx.Storage.Engine.{Batch}
use gokvx.Storage.Engine.Pebble.{
  Library, Pebble, PebbleIterator, internal, open_pebble, usable, got, get, build, committed,
  commit_built, apply, iterator_over, new_iterator, closed_db, close, cause, iterator_err,
  iterator_close,
}

-- A result whose error, when it is one, has the reason INTERNAL.
abbrev pub ErrsInternal {ℓ} : {A : Type ℓ} → Result GoError A → Type 0
ErrsInternal (ok _) = Unit
ErrsInternal (err e) = reason_of (some e) ≡ reason_internal

abbrev pub IsInternal : Option GoError → Type 0
IsInternal none = Unit
IsInternal (some e) = reason_of (some e) ≡ reason_internal

internal-reason :
    (e : GoError) (message : String) → reason_of (some (internal e message)) ≡ reason_internal
unfolding internal as_error wrap new registered info_of reasons reason_of reason_found find_error
internal-reason e message = refl

module _ (p : Library) where
  opened-ErrsInternal : (dir : Bytes) → ErrsInternal (open_pebble p none dir)
  unfolding open_pebble context_error
  opened-ErrsInternal dir = elim (Result-cases (p.open_db dir)) [
    | inl (db, h) ↦ rw (h, ErrsInternal) tt
    | inr (e, h) ↦ rw (h, ErrsInternal) (internal-reason e _)
  ]

  usable-IsInternal : (s : Pebble p) → IsInternal (usable p none s)
  unfolding usable context_error
  usable-IsInternal s = elim (Bool-cases s.is_closed) [
    | inl h ↦ rw h (internal-reason (plain "closed") "storage engine is closed")
    | inr h ↦ rw h tt
  ]

  got-ErrsInternal :
      (r : Result GoError (Option (Bytes × Result GoError (Unit {0})))) → ErrsInternal (got p r)
  unfolding got
  got-ErrsInternal (err e) = internal-reason e _
  got-ErrsInternal (ok none) = tt
  got-ErrsInternal (ok (some (v, ok _))) = tt
  got-ErrsInternal (ok (some (v, err e))) = internal-reason e _

  committed-ErrsInternal :
      (s : Pebble p) (o : Result GoError (Unit {0}) × p.Db) → ErrsInternal (committed p s o).0
  unfolding committed
  committed-ErrsInternal s (ok _, db) = tt
  committed-ErrsInternal s (err e, db) = internal-reason e _

  commit_built-ErrsInternal :
      (sync : Bool) (s : Pebble p) (r : Result GoError p.DbBatch)
      → ErrsInternal (commit_built p sync s r).0
  unfolding commit_built
  commit_built-ErrsInternal sync s (ok b) = committed-ErrsInternal s (p.commit sync b s.db)
  commit_built-ErrsInternal sync s (err e) = internal-reason e _

  iterator_over-ErrsInternal : (r : Result GoError p.DbIterator) → ErrsInternal (iterator_over p r)
  unfolding iterator_over
  iterator_over-ErrsInternal (ok it) = tt
  iterator_over-ErrsInternal (err e) = internal-reason e _

  closed_db-ErrsInternal : (o : Result GoError (Unit {0}) × p.Db) → ErrsInternal (closed_db p o).0
  unfolding closed_db
  closed_db-ErrsInternal (ok _, db) = tt
  closed_db-ErrsInternal (err e, db) = internal-reason e _

  close-ErrsInternal : (s : Pebble p) → ErrsInternal (close p s).0
  unfolding close
  close-ErrsInternal s = elim (Bool-cases s.is_closed) [
    | inl h ↦ rw h tt
    | inr h ↦ rw h (closed_db-ErrsInternal (p.close_db s.db))
  ]

  iterator_err-IsInternal : (i : PebbleIterator p) → IsInternal (iterator_err p i)
  unfolding iterator_err
  iterator_err-IsInternal i = elim (Option-cases (cause p i)) [
    | inr (e, h) ↦ rw (h, iterator_err, IsInternal) (internal-reason e _)
    | inl h ↦ rw (h, iterator_err, IsInternal) tt
  ]

  iterator_close-ErrsInternal : (i : PebbleIterator p) → ErrsInternal (iterator_close p i)
  unfolding iterator_close
  iterator_close-ErrsInternal i = elim (Result-cases (p.close_iterator i.it)) [
    | inl (_, h) ↦ rw (h, ErrsInternal) tt
    | inr (e, h) ↦ rw (h, ErrsInternal) (internal-reason e _)
  ]

  -- Under a context that is not done, every operation of the adapter that fails, on an open or a
  -- closed engine and whatever Pebble answers, reports an error with the reason INTERNAL.
  pub pebble-ErrsInternal :
      (s : Pebble p) (i : PebbleIterator p) (dir k : Bytes) (b : Batch) (sync : Bool)
      (lower upper : Option Bytes)
      → ErrsInternal (open_pebble p none dir)
        × ErrsInternal (get p none k s)
        × ErrsInternal (apply p none b sync s).0
        × ErrsInternal (new_iterator p none lower upper s)
        × ErrsInternal (close p s).0
        × IsInternal (iterator_err p i)
        × ErrsInternal (iterator_close p i)
  unfolding get apply new_iterator
  pebble-ErrsInternal s i dir k b sync lower upper = elim (Option-cases (usable p none s)) [
    | inr (e, h) ↦
        let stop = subst IsInternal h (usable-IsInternal s) in
        (
          opened,
          rw (h, get) stop,
          rw (h, apply) stop,
          rw (h, new_iterator) stop,
          rest.0,
          rest.1,
          rest.2,
        )
    | inl h ↦ (
      opened,
      rw (h, get) (got-ErrsInternal (p.db_get k s.db)),
      rw (h, apply) (commit_built-ErrsInternal sync s (build p b.ops (p.new_batch s.db))),
      rw (h, new_iterator) (iterator_over-ErrsInternal (p.new_iter lower upper s.db)),
      rest.0,
      rest.1,
      rest.2,
    )
  ]
    where
      opened : ErrsInternal (open_pebble p none dir)
      opened = opened-ErrsInternal dir

      rest :
          ErrsInternal (close p s).0
          × IsInternal (iterator_err p i)
          × ErrsInternal (iterator_close p i)
      rest = (close-ErrsInternal s, iterator_err-IsInternal i, iterator_close-ErrsInternal i)
