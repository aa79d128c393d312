-- ===== src/Storage/Engine/Mem.antt =====
-- internal/storage/storagetest/memengine.go: the engine of the tests. Its map is a list of entries
-- with different keys; `range` may go over a map in any order, and here follows that list.
pub mod Table
pub mod Satisfies
use gokvx.Prelude.{
  ℕ, suc, ◌+◌, ◌-◌, leb, ◌==◌, if◌then◌else◌, Bool, true, false, List, [], ◌∷◌, length, get_elem?,
  Option, none, some, Result, ok, err,
}
use gokvx.Prelude.Bytes.{Bytes, bytes_eq}
use gokvx.Kverr.Error.{GoError, plain, as_error, wrap}
use gokvx.Kverr.Reason.{reason_internal}
use gokvx.Storage.Log.{context_error}
use gokvx.Storage.Engine.{Op, Batch, Entry, bytes_less, find, in_bounds, Engine}

pub record MemEngine : Type 0 where
  pub entries : List Entry
  pub is_closed : Bool

abbrev pub new_mem_engine : MemEngine
new_mem_engine = record { entries = []; is_closed = false }

pub err_mem_closed : GoError
err_mem_closed = as_error (wrap reason_internal (plain "closed") "storage engine is closed")

-- usable.
unfoldable pub usable : Option GoError → MemEngine → Option GoError
unfolding err_mem_closed
usable ctx e = if e.is_closed then some err_mem_closed else context_error ctx

-- delete(e.data, key), and a write to the map.
unfoldable pub remove : Bytes → List Entry → List Entry
remove k [] = []
remove k ((j, v) ∷ es) = let rest = remove k es in if bytes_eq j k then rest else (j, v) ∷ rest

unfoldable pub put : Bytes → Bytes → List Entry → List Entry
unfolding remove
put k v es = (k, v) ∷ remove k es

-- Get.
unfoldable pub get : Option GoError → Bytes → MemEngine → Result GoError (Option Bytes)
unfolding usable
get ctx key e = elim (usable ctx e) [ some x ↦ err x | none ↦ ok (find key e.entries) ]

-- The loop of Apply.
unfoldable pub apply_op : Op → List Entry → List Entry
unfolding put remove
apply_op op es = if op.delete then remove op.key es else put op.key op.value es

unfoldable pub apply_ops : List Op → List Entry → List Entry
apply_ops [] es = es
apply_ops (op ∷ ops) es = apply_ops ops (apply_op op es)

unfoldable pub apply :
    Option GoError → Batch → Bool → MemEngine → Result GoError (Unit {0}) × MemEngine
unfolding usable
apply ctx b sync e = elim (usable ctx e) [
  | some x ↦ (err x, e)
  | none ↦ (ok tt, record e { entries = apply_ops b.ops e.entries })
]

-- The entries within the bounds.
unfoldable pub select : Option Bytes → Option Bytes → List Entry → List Entry
select lower upper [] = []
select lower upper ((k, v) ∷ es) =
    let rest = select lower upper es in if in_bounds lower upper k then (k, v) ∷ rest else rest

-- sort.Slice by key: the keys of a map differ, so every sort gives this order.
unfoldable pub insert_entry : Entry → List Entry → List Entry
insert_entry x [] = x ∷ []
insert_entry x (y ∷ es) = if bytes_less y.0 x.0 then y ∷ insert_entry x es else x ∷ y ∷ es

unfoldable pub sort_entries : List Entry → List Entry
sort_entries [] = []
sort_entries (x ∷ es) = insert_entry x (sort_entries es)

-- memIterator; `place` is pos + 1.
pub record MemIterator : Type 0 where
  pub entries : List Entry
  pub place : ℕ

unfoldable pub new_iterator :
    Option GoError → Option Bytes → Option Bytes → MemEngine → Result GoError MemIterator
unfolding usable
new_iterator ctx lower upper e = elim (usable ctx e) [
  | some x ↦ err x
  | none ↦ ok (record { entries = sort_entries (select lower upper e.entries); place = 0 })
]

-- Close.
unfoldable pub close : MemEngine → Result GoError (Unit {0}) × MemEngine
close e = (ok tt, record { entries = []; is_closed = true })

-- Next, Key, Value and Err.
unfoldable pub next : MemIterator → Bool × MemIterator
next i =
    let moved = if leb i.place (length i.entries) then i.place + 1 else i.place in
    (leb moved (length i.entries), record i { place = moved })

unfoldable pub current : MemIterator → Option Entry
current i = if i.place == 0 then none else get_elem? i.entries (i.place - 1)

unfoldable pub key : MemIterator → Option Bytes
unfolding current
key i = elim (current i) [ none ↦ none | some x ↦ some x.0 ]

unfoldable pub value : MemIterator → Option Bytes
unfolding current
value i = elim (current i) [ none ↦ none | some x ↦ some x.1 ]

abbrev pub mem_engine : Engine
mem_engine = record {
  State = MemEngine;
  Cursor = MemIterator;
  get = get;
  apply = apply;
  new_iterator = new_iterator;
  close = close;
  next = next;
  key = key;
  value = value;
  iterator_err = λ i. none;
  iterator_close = λ i. ok tt;
}
