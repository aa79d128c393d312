-- ===== src/Storage/Engine/Agree.antt =====
-- internal/storage/engine.go: two engines side by side.
use gokvx.Prelude.{Bool, List, [], ◌∷◌, Option, none, ok, false, ◌≡◌, refl, ap, sym, ◌∙◌}
use mathlib.Core.Path.{fun_ext}
use gokvx.Prelude.Bytes.{Bytes}
use gokvx.Storage.Engine.{Op, Batch, Entry, View, find, written, Engine, Walks, Contract}
use gokvx.Storage.Engine.Mem.{new_mem_engine, mem_engine, apply_ops, select, sort_entries}
use gokvx.Storage.Engine.Mem.Satisfies.{mem-Contract, IsOpen, IsClosed, view_of}
use gokvx.Storage.Engine.Pebble.{Library, Documented, Pebble, get, pebble_engine}
use gokvx.Storage.Engine.Pebble.Satisfies.{pebble-Contract}
use gokvx.Storage.Engine.Mem.Table.{find-apply_ops, Differ-apply_ops}
use gokvx.Storage.Engine.Checks.Stores.{Stores, cursor-Stores}

-- Batches applied in turn, with whether each is synced.
unfoldable pub run : (e : Engine) → List (Batch × Bool) → e.State → e.State
run e [] s = s
run e ((b, sync) ∷ bs) s = run e bs (e.apply none b sync s).1

unfoldable entries_of : List (Batch × Bool) → List Entry → List Entry
entries_of [] es = es
entries_of ((b, sync) ∷ bs) es = entries_of bs (apply_ops b.ops es)

run-Stores :
    (e : Engine) (IsOpen IsClosed : e.State → Type 0) (view : e.State → View)
    (law : Contract e IsOpen IsClosed view) (bs : List (Batch × Bool)) (s : e.State)
    (es : List Entry)
    → Stores e IsOpen IsClosed view law s es
    → Stores e IsOpen IsClosed view law (run e bs s) (entries_of bs es)
unfolding run entries_of
run-Stores e IsOpen IsClosed view law [] s es h = h
run-Stores e IsOpen IsClosed view law ((b, sync) ∷ bs) s es (h, f, d) =
    run-Stores e IsOpen IsClosed view law bs (e.apply none b sync s).1 (apply_ops b.ops es) (
      law.apply_open s b sync h,
      λ k.
          law.apply_view s b sync k h
          ∙ ap (λ g. written b.ops g k) (fun_ext f)
          ∙ sym (find-apply_ops k b.ops es),
      Differ-apply_ops b.ops es d,
    )

-- Iterators of two engines that walk the same entries.
abbrev pub SameWalks : (e f : Engine) → Option Bytes → Option Bytes → e.State → f.State → Type 0
SameWalks e f lower upper s t =
    (es : List Entry) × (c : e.Cursor) × (d : f.Cursor) × (e.new_iterator none lower upper s ≡ ok c)
    × (f.new_iterator none lower upper t ≡ ok d)
    × Walks e c es
    × Walks f d es

-- Two engines that keep the contract and hold nothing take the same batches.
run-agrees :
    (e : Engine) (IsOpen IsClosed : e.State → Type 0) (view : e.State → View)
    (law : Contract e IsOpen IsClosed view) (s : e.State) (f : Engine)
    (IsOpen' IsClosed' : f.State → Type 0) (view' : f.State → View)
    (law' : Contract f IsOpen' IsClosed' view') (t : f.State) (bs : List (Batch × Bool)) (k : Bytes)
    (lower upper : Option Bytes)
    → IsOpen s
    → ((k : Bytes) → view s k ≡ none)
    → IsOpen' t
    → ((k : Bytes) → view' t k ≡ none)
    → (e.get none k (run e bs s) ≡ f.get none k (run f bs t))
      × SameWalks e f lower upper (run e bs s) (run f bs t)
unfolding find
run-agrees e IsOpen IsClosed view law s f IsOpen' IsClosed' view' law' t bs k lower upper h n h'
      n' =
    let all = entries_of bs [] in
    let (c, q, w) = cursor-Stores e IsOpen IsClosed view law lower upper (run e bs s) all left in
    let (d, r, x) =
      cursor-Stores f IsOpen' IsClosed' view' law' lower upper (run f bs t) all right in
    (
      law.get_open (run e bs s) k left.0
          ∙ ap ok (left.1 k ∙ sym (right.1 k))
          ∙ sym (law'.get_open (run f bs t) k right.0),
      (sort_entries (select lower upper all), c, d, q, r, w, x),
    )
  where
    left : Stores e IsOpen IsClosed view law (run e bs s) (entries_of bs [])
    left = run-Stores e IsOpen IsClosed view law bs s [] (h, n, tt)

    right : Stores f IsOpen' IsClosed' view' law' (run f bs t) (entries_of bs [])
    right = run-Stores f IsOpen' IsClosed' view' law' bs t [] (h', n', tt)

-- An open Pebble adapter over an empty database that does what Pebble documents, and a new MemEngine
-- take the same batches: then they answer every Get in the same way, and their iterators over the
-- same range walk the same entries.
pub engines_agree :
    (p : Library) (Works : p.Db → Type 0) (contents : p.Db → View) (batched : p.DbBatch → List Op)
    (Found : p.Db → View → Type 0) (doc : Documented p Works contents batched Found) (s : Pebble p)
    (bs : List (Batch × Bool)) (k : Bytes) (lower upper : Option Bytes)
    → s.is_closed ≡ false
    → Works s.db
    → ((k : Bytes) → contents s.db k ≡ none)
    → (get p none k (run (pebble_engine p) bs s)
        ≡ mem_engine.get none k (run mem_engine bs new_mem_engine))
      × SameWalks
          (pebble_engine p)
          mem_engine
          lower
          upper
          (run (pebble_engine p) bs s)
          (run mem_engine bs new_mem_engine)
engines_agree p Works contents batched Found doc s bs k lower upper h w n =
    run-agrees (pebble_engine p) _ _ _ (pebble-Contract p Works contents batched Found doc).0 s
      mem_engine IsOpen IsClosed view_of mem-Contract new_mem_engine bs k lower upper (h, w) n
      (refl, tt) (λ k. unfold find in refl)
