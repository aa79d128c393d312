-- ===== src/Storage/Engine.antt =====
-- internal/storage/engine.go: batches, and the interface of a storage engine with its contract. A
-- byte slice that is copied and one that is shared are the same list here, so that callers own
-- their buffers is not modelled.
pub mod Order
pub mod Sorted
pub mod Mem
pub mod Pebble
pub mod Checks
pub mod Agree
mod Tests
use gokvx.Prelude.{
  ℕ, ◌+◌, ◌≡◌, Bool, true, false, if◌then◌else◌, not, ◌&&◌, ◌||◌, List, [], ◌∷◌, ◌++◌, length,
  Option, none, some, Result, ok, err, ltb, ◌==◌, ◌⊎◌, All,
}
use gokvx.Prelude.Bytes.{Bytes, bytes_eq}
use gokvx.Kverr.Error.{GoError, canceled, deadline_exceeded, reason_of}

pub record Op : Type 0 where
  pub key : Bytes
  pub value : Bytes
  pub delete : Bool

pub record Batch : Type 0 where
  pub ops : List Op

abbrev pub empty_batch : Batch
empty_batch = record { ops = [] }

-- Batch.Set and Batch.Delete.
abbrev pub set : Bytes → Bytes → Batch → Batch
set key value b = record { ops = b.ops ++ record { key = key; value = value; delete = false } ∷ [] }

abbrev pub delete : Bytes → Batch → Batch
delete key b = record { ops = b.ops ++ record { key = key; value = []; delete = true } ∷ [] }

abbrev pub len : Batch → ℕ
len b = length b.ops

-- bytes.Compare(a, b) < 0.
unfoldable pub bytes_less : Bytes → Bytes → Bool
bytes_less a [] = false
bytes_less [] (y ∷ ys) = true
bytes_less (x ∷ xs) (y ∷ ys) = ltb x y || (x == y && bytes_less xs ys)

-- A key and a value.
abbrev pub Entry : Type 0
Entry = Bytes × Bytes

-- The value that a list of entries has for a key.
unfoldable pub find : Bytes → List Entry → Option Bytes
find k [] = none
find k ((j, v) ∷ es) = if bytes_eq j k then some v else find k es

-- The keys from `lower` on and below `upper`; a bound that is not there leaves its side open.
abbrev pub reaches : Option Bytes → Bytes → Bool
reaches none k = true
reaches (some l) k = not (bytes_less k l)

abbrev pub stays_below : Option Bytes → Bytes → Bool
stays_below none k = true
stays_below (some u) k = bytes_less k u

abbrev pub in_bounds : Option Bytes → Option Bytes → Bytes → Bool
in_bounds lower upper k = reaches lower k && stays_below upper k

-- What an engine holds: at most one value for each key.
abbrev pub View : Type 0
View = Bytes → Option Bytes

-- One write, and the writes of a batch in order.
unfoldable pub change : Op → View → View
change op f k = if bytes_eq op.key k then if op.delete then none else some op.value else f k

unfoldable pub written : List Op → View → View
written [] f = f
written (op ∷ ops) f = written ops (change op f)

-- The interfaces Engine and Iterator. A context is what its Err method returns. `none` is the panic
-- of a call that is not allowed.
pub record Engine : Type 1 where
  pub State : Type 0
  pub Cursor : Type 0
  pub get : Option GoError → Bytes → State → Result GoError (Option Bytes)
  pub apply : Option GoError → Batch → Bool → State → Result GoError (Unit {0}) × State
  pub new_iterator : Option GoError → Option Bytes → Option Bytes → State → Result GoError Cursor
  pub close : State → Result GoError (Unit {0}) × State
  pub next : Cursor → Bool × Cursor
  pub key : Cursor → Option Bytes
  pub value : Cursor → Option Bytes
  pub iterator_err : Cursor → Option GoError
  pub iterator_close : Cursor → Result GoError (Unit {0})

-- Each key is below all later ones.
abbrev pub Above : Bytes → List Entry → Type 0
Above k = All (λ y. bytes_less k y.0 ≡ true)

abbrev pub Ascending : List Entry → Type 0
Ascending [] = Unit
Ascending (x ∷ es) = Above x.0 es × Ascending es

-- Calls of Next that walk the entries, and then report the end without an error; Close then has none.
pub data Walks (e : Engine) : e.Cursor → List Entry → Type 0 where
  ends :
      (c c' : e.Cursor)
      → e.next c ≡ (false, c')
      → e.iterator_err c' ≡ none
      → e.iterator_close c' ≡ ok tt
      → Walks e c []
  moves :
      (c c' : e.Cursor) (k v : Bytes) (es : List Entry)
      → e.next c ≡ (true, c')
      → e.key c' ≡ some k
      → e.value c' ≡ some v
      → Walks e c' es
      → Walks e c ((k, v) ∷ es)

-- What an iterator over a range of a view walks.
pub record Range (e : Engine) (view : View) (lower upper : Option Bytes) (c : e.Cursor)
    : Type 0 where
  pub entries : List Entry
  pub walks : Walks e c entries
  pub ascending : Ascending entries
  pub exact : (k : Bytes) → find k entries ≡ (if in_bounds lower upper k then view k else none)

-- An error with the reason of another.
abbrev pub Refuses {ℓ} : {A : Type ℓ} → GoError → Result GoError A → Type ℓ
Refuses x r = (e : GoError) × (r ≡ err e) × (reason_of (some e) ≡ reason_of (some x))

-- What the Err method of a context that is done returns.
abbrev pub IsContextError : GoError → Type 0
IsContextError x = (x ≡ canceled) ⊎ (x ≡ deadline_exceeded)

-- The contract of an engine while its process runs: on an open one the operations are those of the
-- view; a context that is done stops them with its reason; a closed engine refuses them, and closes
-- again. What is left after a crash is in CrashContract.
pub record Contract (e : Engine) (IsOpen IsClosed : e.State → Type 0) (view : e.State → View)
    : Type 1 where
  pub get_open : (s : e.State) (k : Bytes) → IsOpen s → e.get none k s ≡ ok (view s k)
  pub apply_ok :
      (s : e.State) (b : Batch) (sync : Bool) → IsOpen s → (e.apply none b sync s).0 ≡ ok tt
  pub apply_open :
      (s : e.State) (b : Batch) (sync : Bool) → IsOpen s → IsOpen (e.apply none b sync s).1
  pub apply_view :
      (s : e.State) (b : Batch) (sync : Bool) (k : Bytes)
      → IsOpen s
      → view (e.apply none b sync s).1 k ≡ written b.ops (view s) k
  pub iterate :
      (s : e.State) (lower upper : Option Bytes)
      → IsOpen s
      → (c : e.Cursor) × (e.new_iterator none lower upper s ≡ ok c) × Range e (view s) lower upper c
  pub get_canceled :
      (s : e.State) (x : GoError) (k : Bytes)
      → IsContextError x
      → IsOpen s
      → Refuses x (e.get (some x) k s)
  pub apply_canceled :
      (s : e.State) (x : GoError) (b : Batch) (sync : Bool)
      → IsContextError x
      → IsOpen s
      → Refuses x (e.apply (some x) b sync s).0 × ((e.apply (some x) b sync s).1 ≡ s)
  pub iterate_canceled :
      (s : e.State) (x : GoError) (lower upper : Option Bytes)
      → IsContextError x
      → IsOpen s
      → Refuses x (e.new_iterator (some x) lower upper s)
  pub close_open : (s : e.State) → IsOpen s → ((e.close s).0 ≡ ok tt) × IsClosed (e.close s).1
  pub close_again : (s : e.State) → IsClosed s → ((e.close s).0 ≡ ok tt) × IsClosed (e.close s).1
  pub get_closed :
      (s : e.State) (ctx : Option GoError) (k : Bytes)
      → IsClosed s
      → (x : GoError) × (e.get ctx k s ≡ err x)
  pub apply_closed :
      (s : e.State) (ctx : Option GoError) (b : Batch) (sync : Bool)
      → IsClosed s
      → (x : GoError) × (e.apply ctx b sync s ≡ (err x, s))
  pub iterate_closed :
      (s : e.State) (ctx : Option GoError) (lower upper : Option Bytes)
      → IsClosed s
      → (x : GoError) × (e.new_iterator ctx lower upper s ≡ err x)

-- What Apply promises of a crash: `AfterCrash` is what the engine may hold when it is opened again
-- after one. With sync a batch is there; without it the batch is there as a whole, or the engine
-- holds what it may have held without the batch.
pub record CrashContract (e : Engine) (IsOpen : e.State → Type 0) (view : e.State → View)
    (AfterCrash : e.State → View → Type 0) : Type 0 where
  pub apply_durable :
      (s : e.State) (b : Batch) (f : View) (k : Bytes)
      → IsOpen s
      → AfterCrash (e.apply none b true s).1 f
      → f k ≡ written b.ops (view s) k
  pub apply_atomic :
      (s : e.State) (b : Batch) (sync : Bool) (f : View)
      → IsOpen s
      → AfterCrash (e.apply none b sync s).1 f
      → ((k : Bytes) → f k ≡ written b.ops (view s) k) ⊎ AfterCrash s f
