-- ===== src/Storage/Engine/Tests.antt =====
-- internal/storage/engine.go, pebble.go and storagetest: the theorems at concrete inputs. The calls
-- of Pebble are those of a pair of lists here: what the database holds, and what of it was flushed.
use gokvx.Prelude.{
  ◌⊎◌, inr, if◌then◌else◌, Bool, true, false, List, [], ◌∷◌, ◌++◌, Option, none, some, Result, ok,
  err, ◌≡◌, ◌∙◌, refl, ap, inl,
}
use gokvx.Prelude.Bytes.{Bytes}
use gokvx.Kverr.Error.{GoError, plain}
use gokvx.Storage.Engine.{
  Op, Batch, Entry, View, Contract, CrashContract, find, written, set, delete, empty_batch,
}
use gokvx.Storage.Engine.Mem.{new_mem_engine, mem_engine, apply_ops, select, sort_entries}
use gokvx.Storage.Engine.Mem.Satisfies.{mem-Contract, IsOpen, IsClosed, view_of}
use gokvx.Storage.Engine.Mem.Table.{
  Differ, find-apply_ops, Differ-apply_ops, find-select, find-sort_entries, sort_entries-Ascending,
  Differ-select,
}
use gokvx.Storage.Engine.Pebble.{
  Library, DbWalks, Documented, Pebble, PebbleIterator, open_pebble, get, apply, new_iterator,
  close, iterator_err, iterator_close, pebble_engine,
}
use gokvx.Storage.Engine.Pebble.Satisfies.{pebble-Contract}
use gokvx.Storage.Engine.Pebble.Errors.{ErrsInternal, IsInternal, pebble-ErrsInternal}
use gokvx.Storage.Engine.Checks.Passed.{Passes, Contract-Passes}
use gokvx.Storage.Engine.Agree.{run, SameWalks, engines_agree}

abbrev present : Option Bytes → Option (Bytes × Result GoError (Unit {0}))
present none = none
present (some v) = some (v, ok tt)

-- An iterator is what is left from the current entry on.
abbrev first_entry : List Entry → Bool × List Entry
first_entry [] = (false, [])
first_entry (x ∷ es) = (true, x ∷ es)

abbrev next_entry : List Entry → Bool × List Entry
next_entry [] = (false, [])
next_entry (x ∷ es) = first_entry es

abbrev key_of : List Entry → Bytes
key_of [] = []
key_of ((k, v) ∷ es) = k

abbrev value_of : List Entry → Bytes
value_of [] = []
value_of ((k, v) ∷ es) = v

-- What the database holds, and what of it was flushed.
abbrev Tables : Type 0
Tables = List Entry × List Entry

abbrev table : Library
table = record {
  Db = Tables;
  DbBatch = List Op;
  DbIterator = List Entry;
  open_db = λ dir. ok ([], []);
  db_get = λ k d. ok (present (find k d.0));
  new_batch = λ d. [];
  batch_set = λ k v b. ok (b ++ record { key = k; value = v; delete = false } ∷ []);
  batch_delete = λ k b. ok (b ++ record { key = k; value = []; delete = true } ∷ []);
  commit = λ sync b d. (ok tt, (apply_ops b d.0, if sync then apply_ops b d.0 else d.1));
  new_iter = λ lower upper d. ok (sort_entries (select lower upper d.0));
  first = first_entry;
  next = next_entry;
  key = key_of;
  value_and_err = λ i. ok (value_of i);
  error = λ i. none;
  close_iterator = λ i. ok tt;
  close_db = λ d. (ok tt, d);
}

abbrev contents : Tables → View
contents d k = find k d.0

abbrev Works : Tables → Type 0
Works d = Differ d.0

-- A crash may lose what was not flushed.
abbrev Survives : Tables → View → Type 0
Survives d f = ((k : Bytes) → f k ≡ find k d.0) ⊎ ((k : Bytes) → f k ≡ find k d.1)

survived :
    (sync : Bool) (b : List Op) (d : Tables) (f : View)
    → Survives (apply_ops b d.0, if sync then apply_ops b d.0 else d.1) f
    → ((k : Bytes) → f k ≡ written b (contents d) k) ⊎ Survives d f
survived sync b d f (inl p) = inl (λ k. p k ∙ find-apply_ops k b d.0)
survived true b d f (inr p) = inl (λ k. p k ∙ find-apply_ops k b d.0)
survived false b d f (inr p) = inr (inr p)

synced :
    (b : List Op) (d : Tables) (f : View) (k : Bytes)
    → Survives (apply_ops b d.0, apply_ops b d.0) f
    → f k ≡ written b (contents d) k
synced b d f k (inl p) = p k ∙ find-apply_ops k b d.0
synced b d f k (inr p) = p k ∙ find-apply_ops k b d.0

next_walks : (x : Entry) (es : List Entry) → DbWalks table next_entry (x ∷ es) es
next_walks x [] = DbWalks.ends next_entry (x ∷ []) [] refl refl refl
next_walks x ((k, v) ∷ es) =
    DbWalks.moves next_entry (x ∷ (k, v) ∷ es) ((k, v) ∷ es) k v es refl refl refl
      (next_walks (k, v) es)

first_walks : (es : List Entry) → DbWalks table first_entry es es
first_walks [] = DbWalks.ends first_entry [] [] refl refl refl
first_walks ((k, v) ∷ es) =
    DbWalks.moves first_entry ((k, v) ∷ es) ((k, v) ∷ es) k v es refl refl refl
      (next_walks (k, v) es)

documented : Documented table Works contents (λ b. b) Survives
documented = record {
  found = λ d k v w e. ap (λ o. ok (present o)) e;
  missing = λ d k w e. ap (λ o. ok (present o)) e;
  batch_new = λ d. refl;
  set_adds = λ k v b. (b ++ record { key = k; value = v; delete = false } ∷ [], refl, refl);
  delete_adds = λ k b. (b ++ record { key = k; value = []; delete = true } ∷ [], refl, refl);
  commit_ok = λ sync b d w. refl;
  commit_works = λ sync b d w. Differ-apply_ops b d.0 w;
  commit_writes = λ sync b d k w. find-apply_ops k b d.0;
  commit_synced = λ b d f k w h. synced b d f k h;
  commit_atomic = λ sync b d f w h. survived sync b d f h;
  iterates = λ lower upper d w. (
    sort_entries (select lower upper d.0),
    sort_entries (select lower upper d.0),
    refl,
    first_walks (sort_entries (select lower upper d.0)),
    sort_entries-Ascending (select lower upper d.0) (Differ-select lower upper d.0 w),
    λ k.
        find-sort_entries k (select lower upper d.0) (Differ-select lower upper d.0 w)
        ∙ find-select lower upper k d.0,
  );
  closes = λ d w. refl;
}

abbrev empty_db : Pebble table
empty_db = record { db = ([], []); is_closed = false }

pebble-Contract_example :
    Contract
      (pebble_engine table)
      (λ s. (s.is_closed ≡ false) × Works s.db)
      (λ s. s.is_closed ≡ true)
      (λ s. contents s.db)
    × CrashContract
        (pebble_engine table)
        (λ s. (s.is_closed ≡ false) × Works s.db)
        (λ s. contents s.db)
        (λ s f. Survives s.db f)
pebble-Contract_example = pebble-Contract table Works contents (λ b. b) Survives documented

Contract-Passes_example : Passes mem_engine new_mem_engine
Contract-Passes_example =
    Contract-Passes mem_engine IsOpen IsClosed view_of mem-Contract new_mem_engine (refl, tt)
      (λ k. unfold find in refl)

abbrev batches : List (Batch × Bool)
batches =
    (set (2 ∷ []) (5 ∷ []) (set (1 ∷ []) (4 ∷ []) empty_batch), true)
    ∷ (delete (1 ∷ []) empty_batch, false)
    ∷ []

engines_agree_example :
    (get table none (2 ∷ []) (run (pebble_engine table) batches empty_db)
      ≡ mem_engine.get none (2 ∷ []) (run mem_engine batches new_mem_engine))
    × SameWalks
        (pebble_engine table)
        mem_engine
        none
        none
        (run (pebble_engine table) batches empty_db)
        (run mem_engine batches new_mem_engine)
engines_agree_example =
    engines_agree table Works contents (λ b. b) Survives documented empty_db batches (2 ∷ []) none
      none refl tt (λ k. unfold find in refl)

-- Pebble with a disk that fails.
abbrev broken : Library
broken = record table {
  open_db = λ dir. err (plain "no space");
  db_get = λ k d. err (plain "bad block");
  commit = λ sync b d. (err (plain "no space"), d);
  close_db = λ d. (err (plain "busy"), d);
}

abbrev held : Pebble broken
held = record { db = (((1 ∷ []), (2 ∷ [])) ∷ [], []); is_closed = false }

abbrev walking : PebbleIterator broken
walking = record { it = []; started = true; value = []; error = some (plain "bad block") }

pebble-ErrsInternal_example :
    ErrsInternal (open_pebble broken none (100 ∷ []))
    × ErrsInternal (get broken none (1 ∷ []) held)
    × ErrsInternal (apply broken none (delete (1 ∷ []) empty_batch) true held).0
    × ErrsInternal (new_iterator broken none none none held)
    × ErrsInternal (close broken held).0
    × IsInternal (iterator_err broken walking)
    × ErrsInternal (iterator_close broken walking)
pebble-ErrsInternal_example =
    pebble-ErrsInternal broken held walking (100 ∷ []) (1 ∷ []) (delete (1 ∷ []) empty_batch) true
      none none
