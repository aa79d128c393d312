-- ===== src/Storage/Engine/Pebble/Satisfies.antt =====
-- internal/storage/pebble.go against the contract of an engine.
use gokvx.Prelude.{
  if◌then◌else◌, Bool, true, false, Bool-cases, Option-cases, List, [], ◌∷◌, ◌++◌, Option, none,
  some, Result, ok, err, arith, ◌≡◌, ◌⊎◌, refl, ap, sym, ◌∙◌, inl, inr,
}
use mathlib.Core.Path.{fun_ext, subst}
use gokvx.Prelude.Bytes.{Bytes}
use gokvx.Kverr.Error.{GoError, plain, reason_of}
use gokvx.Storage.Log.{context_error}
use gokvx.Storage.Engine.{
  Op, Batch, empty_batch, Entry, View, change, written, Walks, Range, IsContextError, Contract,
  CrashContract,
}
use gokvx.Storage.Engine.Mem.Satisfies.{context_error-reason}
use gokvx.Storage.Engine.Pebble.{
  Library, DbWalks, Documented, Pebble, PebbleIterator, internal, usable, got, get, add_op, build,
  committed, commit_built, apply, iterator_over, new_iterator, closed_db, close, with_value, moved,
  next, cause, iterator_err, iterator_close, pebble_engine,
}

written-append : (xs ys : List Op) (f : View) → written (xs ++ ys) f ≡ written ys (written xs f)
unfolding written
written-append [] ys f = refl
written-append (x ∷ xs) ys f = written-append xs ys (change x f)

-- What a delete holds as its value does not matter.
change-delete :
    (op : Op) (f : View)
    → op.delete ≡ true
    → change (record { key = op.key; value = []; delete = true }) f ≡ change op f
unfolding change
change-delete op f h = fun_ext (λ k. ground (arith, h))

change-set :
    (op : Op) (f : View)
    → op.delete ≡ false
    → change (record { key = op.key; value = op.value; delete = false }) f ≡ change op f
unfolding change
change-set op f h = fun_ext (λ k. ground (arith, h))

module _ (p : Library) (Works : p.Db → Type 0) (contents : p.Db → View)
    (batched : p.DbBatch → List Op) (Found : p.Db → View → Type 0)
    (doc : Documented p Works contents batched Found) where
  -- One more operation of a batch.
  added :
      (op : Op) (b : p.DbBatch)
      → (c : p.DbBatch) × (add_op p op b ≡ ok c)
        × ((f : View) → written (batched c) f ≡ change op (written (batched b) f))
  unfolding add_op
  added op b = elim (Bool-cases op.delete) [
    | inl e ↦
        let (c, q, r) = doc.delete_adds op.key b in
        (
          c,
          rw e q,
          λ f.
              ap (λ l. written l f) r
              ∙ written-append (batched b) _ f
              ∙ unfold written in change-delete op (written (batched b) f) e,
        )
    | inr e ↦
        let (c, q, r) = doc.set_adds op.key op.value b in
        (
          c,
          rw e q,
          λ f.
              ap (λ l. written l f) r
              ∙ written-append (batched b) _ f
              ∙ unfold written in change-set op (written (batched b) f) e,
        )
  ]

  built :
      (ops : List Op) (b : p.DbBatch)
      → (c : p.DbBatch) × (build p ops b ≡ ok c)
        × ((f : View) → written (batched c) f ≡ written ops (written (batched b) f))
  unfolding build written
  built [] b = (b, refl, λ f. refl)
  built (op ∷ ops) b =
      let (c, q, r) = added op b in
      let (d, t, u) = built ops c in (d, rw (build, q) t, λ f. u f ∙ ap (written ops) (r f))

module _ (p : Library) where
  usable_live : (s : Pebble p) → s.is_closed ≡ false → usable p none s ≡ none
  unfolding usable context_error
  usable_live s h = ground (arith, h)

  usable_done :
      (ctx : Option GoError) (s : Pebble p)
      → s.is_closed ≡ true
      → (x : GoError) × (usable p ctx s ≡ some x)
  unfolding usable
  usable_done ctx s h = (internal (plain "closed") "storage engine is closed", rw h refl)

  usable_canceled :
      (x : GoError) (s : Pebble p)
      → s.is_closed ≡ false
      → usable p (some x) s ≡ context_error (some x)
  unfolding usable
  usable_canceled x s h = ground (arith, h)

  committed_ok :
      (s : Pebble p) (o : Result GoError (Unit {0}) × p.Db)
      → o.0 ≡ ok tt
      → committed p s o ≡ (ok tt, record s { db = o.1 })
  unfolding committed
  committed_ok s (ok x, d) h = refl
  committed_ok s (err e, d) h = absurd (cc)

  closed_db_ok :
      (o : Result GoError (Unit {0}) × p.Db)
      → o.0 ≡ ok tt
      → closed_db p o ≡ (ok tt, record { db = o.1; is_closed = true })
  unfolding closed_db
  closed_db_ok (ok x, d) h = refl
  closed_db_ok (err e, d) h = absurd (cc)

  abbrev cursor : p.DbIterator → Bool → Bytes → PebbleIterator p
  cursor i started v = record { it = i; started = started; value = v; error = none }

  next_of :
      (step : p.DbIterator → Bool × p.DbIterator) (i : p.DbIterator) (started : Bool) (v : Bytes)
      (o : Bool × p.DbIterator)
      → step i ≡ (if started then p.next i else p.first i)
      → step i ≡ o
      → next p (cursor i started v) ≡ moved p (cursor i started v) o
  unfolding next
  next_of step i started v o h q = ap (moved p (cursor i started v)) (sym h ∙ q)

  moved_value :
      (i i' : p.DbIterator) (started : Bool) (v u : Bytes)
      → p.value_and_err i' ≡ ok u
      → moved p (cursor i started v) (true, i') ≡ (true, cursor i' true u)
  unfolding moved with_value
  moved_value i i' started v u b = rw (b, with_value) refl

  stays_ok :
      (i : p.DbIterator) (v : Bytes) → p.error i ≡ none → iterator_err p (cursor i true v) ≡ none
  unfolding iterator_err cause
  stays_ok i v e = rw (iterator_err, cause, e) refl

  -- A walk of the Pebble iterator is one of the adapter's.
  trail_of :
      (step : p.DbIterator → Bool × p.DbIterator) (i : p.DbIterator) (es : List Entry)
      (started : Bool) (v : Bytes)
      → DbWalks p step i es
      → ((j : p.DbIterator) → step j ≡ (if started then p.next j else p.first j))
      → Walks (pebble_engine p) (cursor i started v) es
  trail_of step i es started v (DbWalks.ends _ _ i' q e x) h =
      Walks.ends (cursor i started v) (cursor i' true v)
        (next_of step i started v (false, i') (h i) q ∙ unfold moved in refl) (stays_ok i' v e)
        (unfold iterator_close in rw (x, iterator_close) refl)
  trail_of step i es started v (DbWalks.moves _ _ i' k u rest q a b w) h =
      Walks.moves (cursor i started v) (cursor i' true u) k u rest
        (next_of step i started v (true, i') (h i) q ∙ moved_value i i' started v u b) (ap some a)
        refl (trail_of p.next i' rest true u w (λ j. refl))

  -- What stops an operation stops each of them.
  refused :
      (s : Pebble p) (ctx : Option GoError) (x : GoError) (k : Bytes) (b : Batch) (sync : Bool)
      (lower upper : Option Bytes)
      → usable p ctx s ≡ some x
      → (get p ctx k s ≡ err x)
        × (apply p ctx b sync s ≡ (err x, s))
        × (new_iterator p ctx lower upper s ≡ err x)
  unfolding get apply new_iterator
  refused s ctx x k b sync lower upper e =
      (rw (e, get) refl, rw (e, apply) refl, rw (e, new_iterator) refl)

  stopped :
      (s : Pebble p) (x : GoError)
      → IsContextError x
      → s.is_closed ≡ false
      → (e : GoError) × (usable p (some x) s ≡ some e) × (reason_of (some e) ≡ reason_of (some x))
  stopped s x c h = let (e, q, r) = context_error-reason x c in (e, usable_canceled x s h ∙ q, r)

module _ (p : Library) (Works : p.Db → Type 0) (contents : p.Db → View)
    (batched : p.DbBatch → List Op) (Found : p.Db → View → Type 0)
    (doc : Documented p Works contents batched Found) where
  abbrev IsOpen : Pebble p → Type 0
  IsOpen s = (s.is_closed ≡ false) × Works s.db

  get_ok : (s : Pebble p) (k : Bytes) → IsOpen s → get p none k s ≡ ok (contents s.db k)
  unfolding get got
  get_ok s k (h, w) =
      rw (usable_live p s h, get)
        (elim (Option-cases (contents s.db k)) [
          | inl e ↦ rw (doc.missing s.db k w e, got, e) refl
          | inr (v, e) ↦ rw (doc.found s.db k v w e, got, e) refl
        ])

  -- Apply commits a batch with the effect of the one it is given.
  applied :
      (s : Pebble p) (b : Batch) (sync : Bool)
      → IsOpen s
      → (c : p.DbBatch) × (apply p none b sync s
          ≡ (ok tt, record s { db = (p.commit sync c s.db).1 }))
        × ((f : View) → written (batched c) f ≡ written b.ops f)
  unfolding apply commit_built
  applied s b sync (h, w) =
      let (c, q, r) = built p Works contents batched Found doc b.ops (p.new_batch s.db) in
      (
        c,
        rw (usable_live p s h, apply, q, commit_built)
            (committed_ok p s (p.commit sync c s.db) (doc.commit_ok sync c s.db w)),
        λ f.
            r f
            ∙ ap (written b.ops)
                (ap (λ l. written l f) (doc.batch_new s.db) ∙ unfold written in refl),
      )

  iterated :
      (s : Pebble p) (lower upper : Option Bytes)
      → IsOpen s
      → (c : PebbleIterator p) × (new_iterator p none lower upper s ≡ ok c)
        × Range (pebble_engine p) (contents s.db) lower upper c
  unfolding new_iterator iterator_over
  iterated s lower upper (h, w) =
      let (i, es, q, d, a, x) = doc.iterates lower upper s.db w in
      (
        cursor p i false [],
        rw (usable_live p s h, new_iterator, q, iterator_over) refl,
        record {
          entries = es;
          walks = trail_of p p.first i es false [] d (λ j. refl);
          ascending = a;
          exact = x;
        },
      )

  closed :
      (s : Pebble p)
      → IsOpen s
      → close p s ≡ (ok tt, record { db = (p.close_db s.db).1; is_closed = true })
  unfolding close
  closed s (h, w) = rw (h, closed_db_ok p (p.close_db s.db) (doc.closes s.db w)) refl

  closed_twice : (s : Pebble p) → s.is_closed ≡ true → close p s ≡ (ok tt, s)
  unfolding close
  closed_twice s h = ground (arith, h)

  -- The operations of the adapter while the process runs.
  running : Contract (pebble_engine p) IsOpen (λ s. s.is_closed ≡ true) (λ s. contents s.db)
  running = record {
    get_open = λ s k h. get_ok s k h;
    apply_ok = λ s b sync h. ap (λ o. o.0) (applied s b sync h).1;
    apply_open = λ s b sync h.
        let (c, q, r) = applied s b sync h in rw q (h.0, doc.commit_works sync c s.db h.1);
    apply_view = λ s b sync k h.
        let (c, q, r) = applied s b sync h in
        rw q (doc.commit_writes sync c s.db k h.1 ∙ ap (λ f. f k) (r (contents s.db)));
    iterate = λ s lower upper h. iterated s lower upper h;
    get_canceled = λ s x k c h.
        let (e, q, r) = stopped p s x c h.0 in
        (e, (refused p s (some x) e k empty_batch true none none q).0, r);
    apply_canceled = λ s x b sync c h.
        let (e, q, r) = stopped p s x c h.0 in
        let both = (refused p s (some x) e [] b sync none none q).1 in
        ((e, ap (λ o. o.0) both, r), ap (λ o. o.1) both);
    iterate_canceled = λ s x lower upper c h.
        let (e, q, r) = stopped p s x c h.0 in
        (e, (refused p s (some x) e [] empty_batch true lower upper q).2, r);
    close_open = λ s h. let q = closed s h in (ap (λ o. o.0) q, ap (λ o. o.1.is_closed) q);
    close_again =
        λ s h. let q = closed_twice s h in (ap (λ o. o.0) q, ap (λ o. o.1.is_closed) q ∙ h);
    get_closed = λ s ctx k h.
        let (x, q) = usable_done p ctx s h in
        (x, (refused p s ctx x k empty_batch true none none q).0);
    apply_closed = λ s ctx b sync h.
        let (x, q) = usable_done p ctx s h in (x, (refused p s ctx x [] b sync none none q).1);
    iterate_closed = λ s ctx lower upper h.
        let (x, q) = usable_done p ctx s h in
        (x, (refused p s ctx x [] empty_batch true lower upper q).2);
  }

  durable :
      (s : Pebble p) (b : Batch) (f : View) (k : Bytes)
      → IsOpen s
      → Found (apply p none b true s).1.db f
      → f k ≡ written b.ops (contents s.db) k
  durable s b f k h found =
      let (c, q, r) = applied s b true h in
      doc.commit_synced c s.db f k h.1 (subst (λ o. Found o.1.db f) q found)
      ∙ ap (λ g. g k) (r (contents s.db))

  atomic :
      (s : Pebble p) (b : Batch) (sync : Bool) (f : View)
      → IsOpen s
      → Found (apply p none b sync s).1.db f
      → ((k : Bytes) → f k ≡ written b.ops (contents s.db) k) ⊎ Found s.db f
  atomic s b sync f h found =
      let (c, q, r) = applied s b sync h in
      elim (doc.commit_atomic sync c s.db f h.1 (subst (λ o. Found o.1.db f) q found)) [
        | inl all ↦ inl (λ k. all k ∙ ap (λ g. g k) (r (contents s.db)))
        | inr old ↦ inr old
      ]

  -- Over a database that does what Pebble documents, where the state is what the database stores,
  -- the adapter keeps the contract of an engine, and that of Apply for crashes: a batch that was
  -- applied with sync is there after a crash, and one without is there as a whole or not at all.
  pub pebble-Contract :
      Contract (pebble_engine p) IsOpen (λ s. s.is_closed ≡ true) (λ s. contents s.db)
      × CrashContract (pebble_engine p) IsOpen (λ s. contents s.db) (λ s f. Found s.db f)
  pebble-Contract = (
    running,
    record {
      apply_durable = λ s b f k h found. durable s b f k h found;
      apply_atomic = λ s b sync f h found. atomic s b sync f h found;
    },
  )
