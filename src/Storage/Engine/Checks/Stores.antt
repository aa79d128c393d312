-- ===== src/Storage/Engine/Checks/Stores.antt =====
-- internal/storage/storagetest/contract.go: what the steps of a check
-- give on an engine that keeps the contract.
use gokvx.Prelude.{
  ℕ, zero, suc, ◌≤◌, Bool, true, if◌then◌else◌, All, List, [], ◌∷◌, map, length, Option, none, some,
  Result, ok, arith, ◌≡◌, refl, ap, sym, ◌∙◌,
}
use mathlib.Core.Path.{fun_ext, subst}
use gokvx.Prelude.Bytes.{Bytes, bytes_eq}
use gokvx.Kverr.Error.{GoError}
use gokvx.Storage.Engine.{
  Batch, empty_batch, set, Entry, View, find, in_bounds, written, Engine, Walks, Contract,
}
use gokvx.Storage.Engine.Sorted.{Ascending-unique}
use gokvx.Storage.Engine.Mem.{apply_ops, select, sort_entries}
use gokvx.Storage.Engine.Mem.Table.{
  Differ, find-apply_ops, find-select, find-sort_entries, sort_entries-Ascending, Differ-select,
  Differ-apply_ops,
}
use gokvx.Storage.Engine.Checks.{
  applied, finished, most_calls, apply_batch, set_key, get_key, collected, keys_of, scan, set_keys,
  collected_with,
}

module _ (e : Engine) where
  finished_ok :
      (c : e.Cursor) → e.iterator_err c ≡ none → e.iterator_close c ≡ ok tt → finished e c ≡ some []
  unfolding finished
  finished_ok c h k = rw (finished, h, k) refl

  -- A walk gives its keys, if it is within the calls.
  collected-Walks :
      (fuel : ℕ) (c : e.Cursor) (es : List Entry)
      → Walks e c es
      → length es ≤ fuel
      → collected e fuel (e.next c) ≡ some (map (λ x. x.0) es)
  unfolding collected
  collected-Walks fuel c [] (Walks.ends _ c' q h k) n = rw (q, collected) (finished_ok c' h k)
  collected-Walks zero c ((k, v) ∷ es) (Walks.moves _ c' _ _ _ q a b w) n =
      absurd (ground (arith, n))
  collected-Walks (suc fuel) c ((k, v) ∷ es) (Walks.moves _ c' _ _ _ q a b w) n =
      rw (q, collected, a, collected-Walks fuel c' es w (ground (arith, n))) refl

  pub collected_with-Walks :
      (u : Bytes) (fuel : ℕ) (c : e.Cursor) (es : List Entry)
      → Walks e c es
      → length es ≤ fuel
      → All (λ x. bytes_eq u x.1 ≡ true) es
      → collected_with e u fuel (e.next c) ≡ some (map (λ x. x.0) es)
  unfolding collected_with
  collected_with-Walks u fuel c [] (Walks.ends _ c' q h k) n same =
      rw (q, collected_with) (finished_ok c' h k)
  collected_with-Walks u zero c ((k, v) ∷ es) (Walks.moves _ c' _ _ _ q a b w) n same =
      absurd (ground (arith, n))
  collected_with-Walks u (suc fuel) c ((k, v) ∷ es) (Walks.moves _ c' _ _ _ q a b w) n same =
      rw
        (
          q,
          collected_with,
          a,
          b,
          same.0,
          collected_with-Walks u fuel c' es w (ground (arith, n)) same.1,
        )
        refl

module _ (e : Engine) (IsOpen IsClosed : e.State → Type 0) (view : e.State → View)
    (law : Contract e IsOpen IsClosed view) where
  -- An open engine that holds the entries.
  abbrev pub Stores : e.State → List Entry → Type 0
  Stores s es = IsOpen s × ((k : Bytes) → view s k ≡ find k es) × Differ es

  pub applied_ok : (o : Result GoError (Unit {0}) × e.State) → o.0 ≡ ok tt → applied e o ≡ some o.1
  unfolding applied
  applied_ok o h = rw h refl

  pub apply-Stores :
      (b : Batch) (sync : Bool) (s : e.State) (es : List Entry)
      → Stores s es
      → (t : e.State) × (apply_batch e b sync s ≡ some t) × Stores t (apply_ops b.ops es)
  unfolding apply_batch
  apply-Stores b sync s es (h, f, d) = (
    (e.apply none b sync s).1,
    applied_ok (e.apply none b sync s) (law.apply_ok s b sync h),
    (
      law.apply_open s b sync h,
      λ k.
          law.apply_view s b sync k h
          ∙ ap (λ g. written b.ops g k) (fun_ext f)
          ∙ sym (find-apply_ops k b.ops es),
      Differ-apply_ops b.ops es d,
    ),
  )

  pub set-Stores :
      (k v : Bytes) (s : e.State) (es : List Entry)
      → Stores s es
      → (t : e.State) × (set_key e k v s ≡ some t)
        × Stores t (apply_ops (set k v empty_batch).ops es)
  unfolding set_key
  set-Stores k v s es h = apply-Stores (set k v empty_batch) true s es h

  pub get-Stores :
      (k : Bytes) (s : e.State) (es : List Entry) → Stores s es → get_key e k s ≡ some (find k es)
  unfolding get_key
  get-Stores k s es (h, f, d) = rw (law.get_open s k h) (ap some (f k))

  -- An iterator walks the entries within the bounds in order.
  pub cursor-Stores :
      (lower upper : Option Bytes) (s : e.State) (es : List Entry)
      → Stores s es
      → (c : e.Cursor) × (e.new_iterator none lower upper s ≡ ok c)
        × Walks e c (sort_entries (select lower upper es))
  cursor-Stores lower upper s es (h, f, d) =
      let (c, q, r) = law.iterate s lower upper h in
      (
        c,
        q,
        subst (Walks e c)
            (Ascending-unique r.entries all r.ascending (sort_entries-Ascending within differ)
              (λ k. r.exact k ∙ same k))
            r.walks,
      )
    where
      within : List Entry
      within = select lower upper es

      all : List Entry
      all = sort_entries within

      differ : Differ within
      differ = Differ-select lower upper es d

      same : (k : Bytes) → (if in_bounds lower upper k then view s k else none) ≡ find k all
      same k =
          ap (λ o. if in_bounds lower upper k then o else none) (f k)
          ∙ sym (find-select lower upper k es)
          ∙ sym (find-sort_entries k within differ)

  pub scan-Stores :
      (lower upper : Option Bytes) (s : e.State) (es : List Entry)
      → Stores s es
      → length (sort_entries (select lower upper es)) ≤ most_calls
      → scan e lower upper s ≡ some (map (λ x. x.0) (sort_entries (select lower upper es)))
  unfolding scan keys_of
  scan-Stores lower upper s es h n =
      let (c, q, w) = cursor-Stores lower upper s es h in
      rw (q, keys_of) (collected-Walks e most_calls c (sort_entries (select lower upper es)) w n)

  unfoldable pub stored : List Bytes → Bytes → List Entry → List Entry
  stored [] v es = es
  stored (k ∷ ks) v es = stored ks v (apply_ops (set k v empty_batch).ops es)

  pub set_keys-Stores :
      (ks : List Bytes) (v : Bytes) (s : e.State) (es : List Entry)
      → Stores s es
      → (t : e.State) × (set_keys e ks v s ≡ some t) × Stores t (stored ks v es)
  unfolding set_keys stored
  set_keys-Stores [] v s es h = (s, refl, h)
  set_keys-Stores (k ∷ ks) v s es h =
      let (t, q, g) = set-Stores k v s es h in
      let (u, r, f) = set_keys-Stores ks v t (apply_ops (set k v empty_batch).ops es) g in
      (u, rw q r, f)
