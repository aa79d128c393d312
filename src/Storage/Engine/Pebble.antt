-- ===== src/Storage/Engine/Pebble.antt =====
-- internal/storage/pebble.go: the engine over a Pebble database. Pebble itself is a parameter, with
-- what its documentation says of it as named hypotheses. The adapter of its log messages is left out.
pub mod Satisfies
pub mod Errors
use gokvx.Prelude.{
  ℕ, if◌then◌else◌, not, Bool, true, false, String, List, [], ◌∷◌, ◌++◌, Option, none, some, Result,
  ok, err, ◌≡◌, ◌⊎◌,
}
use gokvx.Prelude.Bytes.{Bytes}
use gokvx.Kverr.Error.{GoError, plain, as_error, wrap}
use gokvx.Kverr.Reason.{reason_internal}
use gokvx.Storage.Log.{context_error}
use gokvx.Storage.Engine.{Op, Batch, Engine, Entry, View, find, in_bounds, written, Ascending}

-- The calls of github.com/cockroachdb/pebble that the adapter makes. `db_get` answers none for
-- ErrNotFound, and else the value with the outcome of its closer.
pub record Library : Type 1 where
  pub Db : Type 0
  pub DbBatch : Type 0
  pub DbIterator : Type 0
  pub open_db : Bytes → Result GoError Db
  pub db_get : Bytes → Db → Result GoError (Option (Bytes × Result GoError (Unit {0})))
  pub new_batch : Db → DbBatch
  pub batch_set : Bytes → Bytes → DbBatch → Result GoError DbBatch
  pub batch_delete : Bytes → DbBatch → Result GoError DbBatch
  pub commit : Bool → DbBatch → Db → Result GoError (Unit {0}) × Db
  pub new_iter : Option Bytes → Option Bytes → Db → Result GoError DbIterator
  pub first : DbIterator → Bool × DbIterator
  pub next : DbIterator → Bool × DbIterator
  pub key : DbIterator → Bytes
  pub value_and_err : DbIterator → Result GoError Bytes
  pub error : DbIterator → Option GoError
  pub close_iterator : DbIterator → Result GoError (Unit {0})
  pub close_db : Db → Result GoError (Unit {0}) × Db

-- Calls of Next on a Pebble iterator that walk the entries and then end without an error; `step`
-- is First or Next.
pub data DbWalks (p : Library)
    : (p.DbIterator → Bool × p.DbIterator) → p.DbIterator → List Entry → Type 0 where
  ends :
      (step : p.DbIterator → Bool × p.DbIterator) (i i' : p.DbIterator)
      → step i ≡ (false, i')
      → p.error i' ≡ none
      → p.close_iterator i' ≡ ok tt
      → DbWalks p step i []
  moves :
      (step : p.DbIterator → Bool × p.DbIterator) (i i' : p.DbIterator) (k v : Bytes)
      (es : List Entry)
      → step i ≡ (true, i')
      → p.key i' ≡ k
      → p.value_and_err i' ≡ ok v
      → DbWalks p p.next i' es
      → DbWalks p step i ((k, v) ∷ es)

-- What Pebble documents, on a database that works: `contents` is what it stores, `batched` the
-- writes of a batch, and `Found` what the database may hold when it is opened again after a crash.
-- A batch is committed as a whole, and one that is committed with Sync is found after a crash.
pub record Documented (p : Library) (Works : p.Db → Type 0) (contents : p.Db → View)
    (batched : p.DbBatch → List Op) (Found : p.Db → View → Type 0) : Type 0 where
  pub found :
      (d : p.Db) (k v : Bytes)
      → Works d
      → contents d k ≡ some v
      → p.db_get k d ≡ ok (some (v, ok tt))
  pub missing : (d : p.Db) (k : Bytes) → Works d → contents d k ≡ none → p.db_get k d ≡ ok none
  pub batch_new : (d : p.Db) → batched (p.new_batch d) ≡ []
  pub set_adds :
      (k v : Bytes) (b : p.DbBatch)
      → (c : p.DbBatch) × (p.batch_set k v b ≡ ok c)
        × (batched c ≡ batched b ++ record { key = k; value = v; delete = false } ∷ [])
  pub delete_adds :
      (k : Bytes) (b : p.DbBatch)
      → (c : p.DbBatch) × (p.batch_delete k b ≡ ok c)
        × (batched c ≡ batched b ++ record { key = k; value = []; delete = true } ∷ [])
  pub commit_ok : (sync : Bool) (b : p.DbBatch) (d : p.Db) → Works d → (p.commit sync b d).0 ≡ ok tt
  pub commit_works :
      (sync : Bool) (b : p.DbBatch) (d : p.Db) → Works d → Works (p.commit sync b d).1
  pub commit_writes :
      (sync : Bool) (b : p.DbBatch) (d : p.Db) (k : Bytes)
      → Works d
      → contents (p.commit sync b d).1 k ≡ written (batched b) (contents d) k
  pub commit_synced :
      (b : p.DbBatch) (d : p.Db) (f : View) (k : Bytes)
      → Works d
      → Found (p.commit true b d).1 f
      → f k ≡ written (batched b) (contents d) k
  pub commit_atomic :
      (sync : Bool) (b : p.DbBatch) (d : p.Db) (f : View)
      → Works d
      → Found (p.commit sync b d).1 f
      → ((k : Bytes) → f k ≡ written (batched b) (contents d) k) ⊎ Found d f
  pub iterates :
      (lower upper : Option Bytes) (d : p.Db)
      → Works d
      → (i : p.DbIterator) × (es : List Entry) × (p.new_iter lower upper d ≡ ok i)
        × DbWalks p p.first i es
        × Ascending es
        × ((k : Bytes) → find k es ≡ (if in_bounds lower upper k then contents d k else none))
  pub closes : (d : p.Db) → Works d → (p.close_db d).0 ≡ ok tt

module _ (p : Library) where
  pub record Pebble : Type 0 where
    pub db : p.Db
    pub is_closed : Bool

  pub record PebbleIterator : Type 0 where
    pub it : p.DbIterator
    pub started : Bool
    pub value : Bytes
    pub error : Option GoError

pub internal : GoError → String → GoError
internal e message = as_error (wrap reason_internal e message)

module _ (p : Library) where
  -- OpenPebble.
  unfoldable pub open_pebble : Option GoError → Bytes → Result GoError (Pebble p)
  unfolding internal
  open_pebble ctx dir = elim (context_error ctx) [
    | some e ↦ err e
    | none ↦ elim (p.open_db dir) [
      | err e ↦ err (internal e "storage engine could not be opened")
      | ok db ↦ ok (record { db = db; is_closed = false })
    ]
  ]

  -- usable.
  unfoldable pub usable : Option GoError → Pebble p → Option GoError
  unfolding internal
  usable ctx s =
      if s.is_closed
      then some (internal (plain "closed") "storage engine is closed")
      else context_error ctx

  -- Get, on what the database answers.
  unfoldable pub got :
      Result GoError (Option (Bytes × Result GoError (Unit {0}))) → Result GoError (Option Bytes)
  unfolding internal
  got (err e) = err (internal e "storage engine read failed")
  got (ok none) = ok none
  got (ok (some (v, ok _))) = ok (some v)
  got (ok (some (v, err e))) = err (internal e "storage engine read failed")

  unfoldable pub get : Option GoError → Bytes → Pebble p → Result GoError (Option Bytes)
  get ctx k s = elim (usable ctx s) [ some e ↦ err e | none ↦ got (p.db_get k s.db) ]

  -- The loop of Apply that builds the batch.
  unfoldable pub add_op : Op → p.DbBatch → Result GoError p.DbBatch
  add_op op b = if op.delete then p.batch_delete op.key b else p.batch_set op.key op.value b

  abbrev pub and_build :
      Result GoError p.DbBatch → (p.DbBatch → Result GoError p.DbBatch) → Result GoError p.DbBatch
  and_build (err e) more = err e
  and_build (ok b) more = more b

  unfoldable pub build : List Op → p.DbBatch → Result GoError p.DbBatch
  build [] b = ok b
  build (op ∷ ops) b = and_build (add_op op b) (build ops)

  -- The end of Apply.
  unfoldable pub committed :
      Pebble p → Result GoError (Unit {0}) × p.Db → Result GoError (Unit {0}) × Pebble p
  unfolding internal
  committed s (ok _, db) = (ok tt, record s { db = db })
  committed s (err e, db) = (err (internal e "storage engine write failed"), record s { db = db })

  unfoldable pub commit_built :
      Bool → Pebble p → Result GoError p.DbBatch → Result GoError (Unit {0}) × Pebble p
  unfolding internal
  commit_built sync s (err e) = (err (internal e "storage engine batch could not be built"), s)
  commit_built sync s (ok b) = committed s (p.commit sync b s.db)

  unfoldable pub apply :
      Option GoError → Batch → Bool → Pebble p → Result GoError (Unit {0}) × Pebble p
  apply ctx b sync s = elim (usable ctx s) [
    | some e ↦ (err e, s)
    | none ↦ commit_built sync s (build b.ops (p.new_batch s.db))
  ]

  -- NewIterator.
  unfoldable pub iterator_over : Result GoError p.DbIterator → Result GoError (PebbleIterator p)
  unfolding internal
  iterator_over (err e) = err (internal e "storage engine iterator could not be created")
  iterator_over (ok it) = ok (record { it = it; started = false; value = []; error = none })

  unfoldable pub new_iterator :
      Option GoError → Option Bytes → Option Bytes → Pebble p → Result GoError (PebbleIterator p)
  new_iterator ctx lower upper s = elim (usable ctx s) [
    | some e ↦ err e
    | none ↦ iterator_over (p.new_iter lower upper s.db)
  ]

  -- Close.
  unfoldable pub closed_db : Result GoError (Unit {0}) × p.Db → Result GoError (Unit {0}) × Pebble p
  unfolding internal
  closed_db (ok _, db) = (ok tt, record { db = db; is_closed = true })
  closed_db (err e, db) =
      (err (internal e "storage engine could not be closed"), record { db = db; is_closed = true })

  unfoldable pub close : Pebble p → Result GoError (Unit {0}) × Pebble p
  close s = if s.is_closed then (ok tt, s) else closed_db (p.close_db s.db)

  -- Next: the value is read once the iterator has moved.
  unfoldable pub with_value :
      PebbleIterator p → p.DbIterator → Result GoError Bytes → Bool × PebbleIterator p
  with_value i it (err e) = (false, record i { it = it; started = true; error = some e })
  with_value i it (ok v) = (true, record i { it = it; started = true; value = v })

  unfoldable pub moved : PebbleIterator p → Bool × p.DbIterator → Bool × PebbleIterator p
  moved i (false, it) = (false, record i { it = it; started = true })
  moved i (true, it) = with_value i it (p.value_and_err it)

  unfoldable pub next : PebbleIterator p → Bool × PebbleIterator p
  next i = moved i (if i.started then p.next i.it else p.first i.it)

  -- Err.
  unfoldable pub cause : PebbleIterator p → Option GoError
  cause i = elim i.error [ some e ↦ some e | none ↦ p.error i.it ]

  unfoldable pub iterator_err : PebbleIterator p → Option GoError
  unfolding internal
  iterator_err i = elim (cause i) [
    | some e ↦ some (internal e "storage engine iteration failed")
    | none ↦ none
  ]

  -- Close of an iterator.
  unfoldable pub iterator_close : PebbleIterator p → Result GoError (Unit {0})
  unfolding internal
  iterator_close i = elim (p.close_iterator i.it) [
    | err e ↦ err (internal e "storage engine iterator could not be closed")
    | ok _ ↦ ok tt
  ]

  abbrev pub pebble_engine : Engine
  pebble_engine = record {
    State = Pebble p;
    Cursor = PebbleIterator p;
    get = get;
    apply = apply;
    new_iterator = new_iterator;
    close = close;
    next = next;
    key = λ i. some (p.key i.it);
    value = λ i. some i.value;
    iterator_err = iterator_err;
    iterator_close = iterator_close;
  }
