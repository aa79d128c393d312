-- ===== src/Storage/Engine/Checks.antt =====
-- internal/storage/storagetest/contract.go: the checks that the tests run on every engine. A check
-- is `some tt` where the test passes, and none where an assertion fails or a call panics; a failed
-- `assert`, after which a test goes on, gives the same verdict. The loops over an iterator stop
-- after `most_calls` calls of Next. The check that values are copies is left out, with the buffers.
pub mod Stores
pub mod Passed
use gokvx.Prelude.{
  ℕ, zero, suc, Bool, true, false, not, ◌&&◌, if◌then◌else◌, List, [], ◌∷◌, length, Option, none,
  some, Result, ok, err, ◌==◌,
}
use gokvx.Prelude.Bytes.{Bytes, bytes_eq}
use gokvx.Kverr.Error.{GoError, canceled, reason_of}
use gokvx.Kverr.Reason.{Reason, reason_canceled, is_reason}
use gokvx.Storage.Engine.{Batch, empty_batch, set, delete, len, Engine}

infixl 5 ◌>>=◌ ◌>>◌
abbrev pub ◌>>=◌ {ℓ κ} : {A : Type ℓ} {B : Type κ} → Option A → (A → Option B) → Option B
none >>= f = none
some a >>= f = f a

abbrev pub ◌>>◌ {ℓ} : {B : Type ℓ} → Option (Unit {0}) → Option B → Option B
m >> k = m >>= λ _. k

-- require.NoError, require.Error and assert.True.
abbrev pub no_error {ℓ} : {A : Type ℓ} → Result GoError A → Option A
no_error (ok a) = some a
no_error (err e) = none

abbrev pub error_of {ℓ} : {A : Type ℓ} → Result GoError A → Option GoError
error_of (ok a) = none
error_of (err e) = some e

abbrev pub holds : Bool → Option (Unit {0})
holds true = some tt
holds false = none

abbrev pub same_keys : List Bytes → List Bytes → Bool
same_keys [] [] = true
same_keys [] (y ∷ ys) = false
same_keys (x ∷ xs) [] = false
same_keys (x ∷ xs) (y ∷ ys) = bytes_eq x y && same_keys xs ys

abbrev pub same_value : Option Bytes → Option Bytes → Bool
same_value none none = true
same_value none (some w) = false
same_value (some v) none = false
same_value (some v) (some w) = bytes_eq v w

-- More calls of Next than a check makes.
abbrev pub most_calls : ℕ
most_calls = 10

-- The key "k".
abbrev pub key_k : Bytes
key_k = 107 ∷ []

module _ (e : Engine) where
  unfoldable pub applied : Result GoError (Unit {0}) × e.State → Option e.State
  applied (r, s) = no_error r >>= λ _. some s

  unfoldable pub apply_batch : Batch → Bool → e.State → Option e.State
  apply_batch b sync s = applied (e.apply none b sync s)

  -- set, get and scan.
  unfoldable pub set_key : Bytes → Bytes → e.State → Option e.State
  set_key key value s = apply_batch (set key value empty_batch) true s

  unfoldable pub get_key : Bytes → e.State → Option (Option Bytes)
  get_key key s = no_error (e.get none key s)

  -- The loop over an iterator, the check of its error, and Close.
  unfoldable pub finished : e.Cursor → Option (List Bytes)
  finished c = elim (e.iterator_err c) [
    | some x ↦ none
    | none ↦ do no_error (e.iterator_close c); some []
  ]

  unfoldable pub collected : ℕ → Bool × e.Cursor → Option (List Bytes)
  collected fuel (false, c) = finished c
  collected zero (true, c) = none
  collected (suc fuel) (true, c) = do
    key ← e.key c
    keys ← collected fuel (e.next c)
    some (key ∷ keys)

  unfoldable pub keys_of : e.Cursor → Option (List Bytes)
  keys_of c = collected most_calls (e.next c)

  unfoldable pub scan : Option Bytes → Option Bytes → e.State → Option (List Bytes)
  scan lower upper s = do c ← no_error (e.new_iterator none lower upper s); keys_of c

  unfoldable pub set_keys : List Bytes → Bytes → e.State → Option e.State
  set_keys [] value s = some s
  set_keys (k ∷ ks) value s = do s1 ← set_key k value s; set_keys ks value s1

  unfoldable pub contract_missing_key : e.State → Option (Unit {0})
  contract_missing_key s = do
    -- "absent"
    value ← get_key (97 ∷ 98 ∷ 115 ∷ 101 ∷ 110 ∷ 116 ∷ []) s
    holds (same_value value none)

  unfoldable pub contract_set_overwrite_delete : e.State → Option (Unit {0})
  contract_set_overwrite_delete s = do
    -- "v1", "v2"
    s1 ← set_key key_k (118 ∷ 49 ∷ []) s
    value ← get_key key_k s1
    holds (same_value value (some (118 ∷ 49 ∷ [])))
    s2 ← set_key key_k (118 ∷ 50 ∷ []) s1
    again ← get_key key_k s2
    holds (same_value again (some (118 ∷ 50 ∷ [])))
    s3 ← apply_batch (delete key_k empty_batch) true s2
    gone ← get_key key_k s3
    holds (same_value gone none)

  -- "gone", "x", "a", "1", "b", "2"
  unfoldable pub contract_batch : e.State → Option (Unit {0})
  contract_batch s = do
    s1 ← set_key (103 ∷ 111 ∷ 110 ∷ 101 ∷ []) (120 ∷ []) s
    let b =
        delete (103 ∷ 111 ∷ 110 ∷ 101 ∷ [])
          (set (98 ∷ []) (50 ∷ []) (set (97 ∷ []) (49 ∷ []) empty_batch))
    holds (len b == 3)
    s2 ← apply_batch b false s1
    keys ← scan none none s2
    holds (same_keys keys ((97 ∷ []) ∷ (98 ∷ []) ∷ []))

  -- "first", "last"
  unfoldable pub contract_last_op_wins : e.State → Option (Unit {0})
  contract_last_op_wins s = do
    let first = set key_k (102 ∷ 105 ∷ 114 ∷ 115 ∷ 116 ∷ []) empty_batch
    s1 ← apply_batch (set key_k (108 ∷ 97 ∷ 115 ∷ 116 ∷ []) (delete key_k first)) true s
    value ← get_key key_k s1
    holds (same_value value (some (108 ∷ 97 ∷ 115 ∷ 116 ∷ [])))

  -- "\xff", "b", "\x00", "a", "\x80", "ab"
  unfoldable pub contract_unsigned_order : e.State → Option (Unit {0})
  contract_unsigned_order s = do
    s1 ←
        set_keys ((255 ∷ []) ∷ (98 ∷ []) ∷ (0 ∷ []) ∷ (97 ∷ []) ∷ (128 ∷ []) ∷ (97 ∷ 98 ∷ []) ∷ [])
          (118 ∷ []) s
    keys ← scan none none s1
    holds (
        same_keys keys
          ((0 ∷ []) ∷ (97 ∷ []) ∷ (97 ∷ 98 ∷ []) ∷ (98 ∷ []) ∷ (128 ∷ []) ∷ (255 ∷ []) ∷ []))

  unfoldable pub contract_bounds : e.State → Option (Unit {0})
  contract_bounds s = do
    s1 ← set_keys ((97 ∷ []) ∷ (98 ∷ []) ∷ (99 ∷ []) ∷ (100 ∷ []) ∷ []) (118 ∷ []) s
    inner ← scan (some (98 ∷ [])) (some (100 ∷ [])) s1
    holds (same_keys inner ((98 ∷ []) ∷ (99 ∷ []) ∷ []))
    upper ← scan (some (99 ∷ [])) none s1
    holds (same_keys upper ((99 ∷ []) ∷ (100 ∷ []) ∷ []))
    lower ← scan none (some (98 ∷ [])) s1
    holds (same_keys lower ((97 ∷ []) ∷ []))
    nothing ← scan (some (98 ∷ [])) (some (98 ∷ [])) s1
    holds (same_keys nothing [])

  -- The loop of contractSnapshot, which looks at the values too.
  unfoldable pub collected_with : Bytes → ℕ → Bool × e.Cursor → Option (List Bytes)
  collected_with expected fuel (false, c) = finished c
  collected_with expected zero (true, c) = none
  collected_with expected (suc fuel) (true, c) = do
    key ← e.key c
    value ← e.value c
    holds (bytes_eq expected value)
    keys ← collected_with expected fuel (e.next c)
    some (key ∷ keys)

  unfoldable pub contract_snapshot : e.State → Option (Unit {0})
  contract_snapshot s = do
    s1 ← set_key (97 ∷ []) (118 ∷ []) s
    c ← no_error (e.new_iterator none none none s1)
    s2 ← set_key (98 ∷ []) (118 ∷ []) s1
    keys ← collected_with (118 ∷ []) most_calls (e.next c)
    holds (same_keys keys ((97 ∷ []) ∷ []))

  unfoldable pub contract_empty_iteration : e.State → Option (Unit {0})
  contract_empty_iteration s = do keys ← scan none none s; holds (same_keys keys [])

  unfoldable pub contract_canceled_context : e.State → Option (Unit {0})
  contract_canceled_context s = do
    read ← error_of (e.get (some canceled) key_k s)
    holds (is_reason (reason_of (some read)) reason_canceled)
    written ← error_of (e.apply (some canceled) empty_batch true s).0
    holds (is_reason (reason_of (some written)) reason_canceled)
    walked ← error_of (e.new_iterator (some canceled) none none s)
    holds (is_reason (reason_of (some walked)) reason_canceled)

  unfoldable pub contract_closed : e.State → Option (Unit {0})
  contract_closed s = do
    s1 ← applied (e.close s)
    s2 ← applied (e.close s1)
    _ ← error_of (e.get none key_k s2)
    _ ← error_of (e.apply none empty_batch true s2).0
    _ ← error_of (e.new_iterator none none none s2)
    some tt
