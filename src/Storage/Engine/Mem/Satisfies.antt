-- ===== src/Storage/Engine/Mem/Satisfies.antt =====
-- internal/storage/storagetest/memengine.go against the contract of an engine.
use gokvx.Prelude.{
  ℕ, suc, ◌+◌, ◌≤◌, leb, ◌==◌, Bool, true, false, List, [], ◌∷◌, ◌++◌, length, length-append,
  get_elem?, append-nil, append_assoc, Option, none, some, ok, err, arith, ◌≡◌, refl, ap, sym, ◌∙◌,
  inl, inr,
}
use gokvx.Prelude.Bytes.{Bytes}
use gokvx.Kverr.Error.{
  GoError, as_error, new, wrap, reason_of, reason_found, find_error, classify, is_canceled,
  is_deadline_exceeded,
}
use gokvx.Kverr.Reason.{registered, info_of, reasons}
use gokvx.Storage.Log.{context_error}
use gokvx.Storage.Engine.{
  Entry, View, Batch, empty_batch, find, Walks, Range, IsContextError, Contract,
}
use gokvx.Storage.Engine.Mem.{
  MemEngine, err_mem_closed, usable, get, apply, select, sort_entries, MemIterator, new_iterator,
  close, next, current, key, value, mem_engine, apply_ops,
}
use gokvx.Storage.Engine.Mem.Table.{
  find-apply_ops, find-select, Differ, find-sort_entries, sort_entries-Ascending, Differ-select,
  Differ-apply_ops,
}

-- The error that stops an operation has the reason of the context's.
pub context_error-reason :
    (x : GoError)
    → IsContextError x
    → (e : GoError) × (context_error (some x) ≡ some e) × (reason_of (some e) ≡ reason_of (some x))
unfolding context_error as_error wrap new registered info_of reasons reason_of reason_found
    find_error classify is_canceled is_deadline_exceeded
context_error-reason x (inl p) = rw p (_, refl, refl)
context_error-reason x (inr p) = rw p (_, refl, refl)

abbrev pub IsOpen : MemEngine → Type 0
IsOpen e = (e.is_closed ≡ false) × Differ e.entries

abbrev pub IsClosed : MemEngine → Type 0
IsClosed e = e.is_closed ≡ true

usable_open : (e : MemEngine) → e.is_closed ≡ false → usable none e ≡ none
unfolding usable context_error
usable_open e h = ground (arith, h)

usable_closed :
    (ctx : Option GoError) (e : MemEngine)
    → e.is_closed ≡ true
    → (x : GoError) × (usable ctx e ≡ some x)
unfolding usable
usable_closed ctx e h = (err_mem_closed, rw h refl)

usable_canceled :
    (x : GoError) (e : MemEngine) → e.is_closed ≡ false → usable (some x) e ≡ context_error (some x)
unfolding usable
usable_canceled x e h = ground (arith, h)

abbrev at : List Entry → ℕ → MemIterator
at all place = record { entries = all; place = place }

next_at :
    (all : List Entry) (n : ℕ) (more : Bool)
    → n ≤ length all
    → leb (n + 1) (length all) ≡ more
    → next (at all n) ≡ (more, at all (n + 1))
unfolding next
next_at all n more h e = ground (arith, h, e)

get_elem?-append :
    (before rest : List Entry) (x : Entry) → get_elem? (before ++ x ∷ rest) (length before) ≡ some x
get_elem?-append [] rest x = refl
get_elem?-append (y ∷ ys) rest x = get_elem?-append ys rest x

current_at : (all : List Entry) (n : ℕ) → current (at all (n + 1)) ≡ get_elem? all n
unfolding current
current_at all n = rw (positive n) (ap (get_elem? all) (omega arith))
  where
    positive : (n : ℕ) → (n + 1 == 0) ≡ false
    positive n = ground arith

-- An iterator behind `before` walks the rest.
trail_from :
    (all before rest : List Entry) (n : ℕ)
    → all ≡ before ++ rest
    → n ≡ length before
    → Walks mem_engine (at all n) rest
unfolding key value
trail_from all before [] n e p =
    Walks.ends (at all n) (at all (n + 1))
      (next_at all n false (omega (arith, size)) (past (omega (arith, size)))) refl refl
  where
    size : length all ≡ n
    size = ap length (e ∙ append-nil before) ∙ sym p

    past : length all ≤ n → leb (n + 1) (length all) ≡ false
    past h = ground (arith, h)
trail_from all before ((k, v) ∷ rest) n e p =
    Walks.moves (at all n) (at all (n + 1)) k v rest
      (next_at all n true (omega (arith, size)) (more (omega (arith, size)))) (rw (key, here) refl)
      (rw (value, here) refl)
      (trail_from all (before ++ (k, v) ∷ []) rest (n + 1)
        (e ∙ sym (append_assoc before ((k, v) ∷ []) rest)) (rw length-append (omega (arith, p))))
  where
    size : length all ≡ n + suc (length rest)
    size = ap length e ∙ omega (arith, length-append before ((k, v) ∷ rest), p)

    more : n + 1 ≤ length all → leb (n + 1) (length all) ≡ true
    more h = ground (arith, h)

    here : current (at all (n + 1)) ≡ some (k, v)
    here =
        current_at all n
        ∙ ap (λ l. get_elem? l n) e
        ∙ ap (get_elem? (before ++ (k, v) ∷ rest)) p
        ∙ get_elem?-append before rest (k, v)

abbrev pub view_of : MemEngine → View
view_of e k = find k e.entries

iterated :
    (e : MemEngine) (lower upper : Option Bytes)
    → IsOpen e
    → (c : MemIterator) × (new_iterator none lower upper e ≡ ok c)
      × Range mem_engine (view_of e) lower upper c
unfolding new_iterator
iterated e lower upper (h, d) = (
  at all 0,
  rw (usable_open e h, new_iterator) refl,
  record {
    entries = all;
    walks = trail_from all [] all 0 refl refl;
    ascending =
        sort_entries-Ascending (select lower upper e.entries)
          (Differ-select lower upper e.entries d);
    exact = λ k.
        find-sort_entries k (select lower upper e.entries) (Differ-select lower upper e.entries d)
        ∙ find-select lower upper k e.entries;
  },
)
  where
    all : List Entry
    all = sort_entries (select lower upper e.entries)

module _ (s : MemEngine) where
  get_ok : (k : Bytes) → IsOpen s → get none k s ≡ ok (view_of s k)
  unfolding get
  get_ok k h = rw (usable_open s h.0, get) refl

  apply_ok :
      (b : Batch) (sync : Bool)
      → IsOpen s
      → apply none b sync s ≡ (ok tt, record s { entries = apply_ops b.ops s.entries })
  unfolding apply
  apply_ok b sync h = rw (usable_open s h.0, apply) refl

  -- What a context that is done, and an engine that is closed, make of the operations.
  refused :
      (ctx : Option GoError) (x : GoError) (k : Bytes) (b : Batch) (sync : Bool)
      (lower upper : Option Bytes)
      → usable ctx s ≡ some x
      → (get ctx k s ≡ err x)
        × (apply ctx b sync s ≡ (err x, s))
        × (new_iterator ctx lower upper s ≡ err x)
  unfolding get apply new_iterator
  refused ctx x k b sync lower upper e =
      (rw (e, get) refl, rw (e, apply) refl, rw (e, new_iterator) refl)

  -- The error for a context that is done.
  stopped :
      (x : GoError)
      → IsContextError x
      → IsOpen s
      → (e : GoError) × (usable (some x) s ≡ some e) × (reason_of (some e) ≡ reason_of (some x))
  stopped x p h = let (e, q, r) = context_error-reason x p in (e, usable_canceled x s h.0 ∙ q, r)

-- MemEngine keeps the contract of an engine, where its state is what the map holds for each key.
pub mem-Contract : Contract mem_engine IsOpen IsClosed view_of
unfolding close
mem-Contract = record {
  get_open = λ s k h. get_ok s k h;
  apply_ok = λ s b sync h. ap (λ o. o.0) (apply_ok s b sync h);
  apply_open = λ s b sync h. rw (apply_ok s b sync h) (h.0, Differ-apply_ops b.ops s.entries h.1);
  apply_view = λ s b sync k h. rw (apply_ok s b sync h) (find-apply_ops k b.ops s.entries);
  iterate = λ s lower upper h. iterated s lower upper h;
  get_canceled = λ s x k p h.
      let (e, q, r) = stopped s x p h in
      (e, (refused s (some x) e k empty_batch true none none q).0, r);
  apply_canceled = λ s x b sync p h.
      let (e, q, r) = stopped s x p h in
      let both = (refused s (some x) e [] b sync none none q).1 in
      ((e, ap (λ o. o.0) both, r), ap (λ o. o.1) both);
  iterate_canceled = λ s x lower upper p h.
      let (e, q, r) = stopped s x p h in
      (e, (refused s (some x) e [] empty_batch true lower upper q).2, r);
  close_open = λ s h. (refl, refl);
  close_again = λ s h. (refl, refl);
  get_closed = λ s ctx k h.
      let (x, q) = usable_closed ctx s h in (x, (refused s ctx x k empty_batch true none none q).0);
  apply_closed = λ s ctx b sync h.
      let (x, q) = usable_closed ctx s h in (x, (refused s ctx x [] b sync none none q).1);
  iterate_closed = λ s ctx lower upper h.
      let (x, q) = usable_closed ctx s h in
      (x, (refused s ctx x [] empty_batch true lower upper q).2);
}
