-- ===== src/Storage/Engine/Mem/Table.antt =====
-- internal/storage/storagetest/memengine.go: what the operations on the map do to each key.
use gokvx.Prelude.{
  if◌then◌else◌, true, false, Bool-cases, if_split, if_elim, List, [], ◌∷◌, Option, none, some,
  arith, ◌≡◌, refl, ap, ◌∙◌, inl, inr,
}
use mathlib.Core.Path.{fun_ext}
use gokvx.Prelude.Bytes.{Bytes, bytes_eq, bytes_eq_iff, bytes_eq_refl}
use gokvx.Storage.Engine.{Op, Entry, bytes_less, find, in_bounds, change, written, Above, Ascending}
use gokvx.Storage.Engine.Sorted.{Above-trans}
use gokvx.Storage.Engine.Order.{bytes_less_total}
use gokvx.Storage.Engine.Mem.{remove, put, apply_op, apply_ops, select, insert_entry, sort_entries}

find-remove :
    (j k : Bytes) (es : List Entry)
    → find j (remove k es) ≡ (if bytes_eq k j then none else find j es)
unfolding find remove
find-remove j k [] = ground arith
find-remove j k ((i, v) ∷ es) =
    ground (arith, find-remove j k es, bytes_eq_iff i k, bytes_eq_iff i j, bytes_eq_iff k j)

find-put :
    (j k v : Bytes) (es : List Entry)
    → find j (put k v es) ≡ (if bytes_eq k j then some v else find j es)
unfolding find put
find-put j k v es = ground (arith, find-remove j k es)

-- One write, and all the writes of a batch, as changes of the view.
find-apply_op :
    (j : Bytes) (op : Op) (es : List Entry) → find j (apply_op op es) ≡ change op (λ k. find k es) j
unfolding apply_op change
find-apply_op j op es = ground (arith, find-remove j op.key es, find-put j op.key op.value es)

pub find-apply_ops :
    (j : Bytes) (ops : List Op) (es : List Entry)
    → find j (apply_ops ops es) ≡ written ops (λ k. find k es) j
unfolding apply_ops written
find-apply_ops j [] es = refl
find-apply_ops j (op ∷ ops) es =
    find-apply_ops j ops (apply_op op es)
    ∙ ap (λ f. written ops f j) (fun_ext (λ k. find-apply_op k op es))

pub find-select :
    (lower upper : Option Bytes) (j : Bytes) (es : List Entry)
    → find j (select lower upper es) ≡ (if in_bounds lower upper j then find j es else none)
unfolding find select
find-select lower upper j [] = ground arith
find-select lower upper j ((k, v) ∷ es) = elim (Bool-cases (bytes_eq k j)) [
  | inl e ↦ rw (same e) (ground (arith, e, find-select lower upper j es))
  | inr e ↦ ground (arith, e, find-select lower upper j es)
]
  where
    same : bytes_eq k j ≡ true → in_bounds lower upper k ≡ in_bounds lower upper j
    same e = ap (in_bounds lower upper) ((bytes_eq_iff k j).0 e)

-- The keys of a map differ.
abbrev pub Differ : List Entry → Type 0
Differ [] = Unit
Differ (x ∷ es) = (find x.0 es ≡ none) × Differ es

Differ-remove : (k : Bytes) (es : List Entry) → Differ es → Differ (remove k es)
unfolding remove
Differ-remove k [] h = tt
Differ-remove k ((j, v) ∷ es) h = ground (arith, find-remove j k es, Differ-remove k es h.1)

find-insert_entry :
    (j : Bytes) (x : Entry) (es : List Entry)
    → find x.0 es ≡ none
    → find j (insert_entry x es) ≡ find j (x ∷ es)
unfolding find insert_entry
find-insert_entry j x [] h = refl
find-insert_entry j x (y ∷ es) h =
    ground (
      arith,
      find-insert_entry j x es,
      bytes_eq_iff y.0 x.0,
      bytes_eq_iff x.0 j,
      bytes_eq_iff y.0 j,
    )

Above-insert_entry :
    (k : Bytes) (x : Entry) (es : List Entry)
    → bytes_less k x.0 ≡ true
    → Above k es
    → Above k (insert_entry x es)
unfolding insert_entry
Above-insert_entry k x [] h a = (h, tt)
Above-insert_entry k x (y ∷ es) h a =
    if_elim (Above k) (bytes_less y.0 x.0) (y ∷ insert_entry x es) (x ∷ y ∷ es)
      (a.0, Above-insert_entry k x es h a.1) (h, a)

Ascending-insert_entry :
    (x : Entry) (es : List Entry)
    → find x.0 es ≡ none
    → Ascending es
    → Ascending (insert_entry x es)
unfolding find insert_entry
Ascending-insert_entry x [] h a = (tt, tt)
Ascending-insert_entry x (y ∷ es) h a = elim (Bool-cases (bytes_eq y.0 x.0)) [
  | inl e ↦ absurd (taken e h)
  | inr e ↦
      if_split Ascending (bytes_less y.0 x.0) (y ∷ insert_entry x es) (x ∷ y ∷ es)
        (λ less.
          (Above-insert_entry y.0 x es less a.0, Ascending-insert_entry x es (rw e at h) a.1))
        (λ ge. let up = above e ge in ((up, Above-trans x.0 y.0 es up a.0), a))
]
  where
    taken : bytes_eq y.0 x.0 ≡ true → find x.0 (y ∷ es) ≡ none → ⊥
    taken e p = ground (arith, e, p)

    above : bytes_eq y.0 x.0 ≡ false → bytes_less y.0 x.0 ≡ false → bytes_less x.0 y.0 ≡ true
    above e ge = elim (Bool-cases (bytes_less x.0 y.0)) [
      | inl up ↦ up
      | inr down ↦
          absurd (ground (arith, e, bytes_eq_iff y.0 x.0, bytes_less_total y.0 x.0 ge down))
    ]

pub find-sort_entries :
    (j : Bytes) (es : List Entry) → Differ es → find j (sort_entries es) ≡ find j es
unfolding sort_entries find
find-sort_entries j [] h = refl
find-sort_entries j (x ∷ es) h =
    find-insert_entry j x (sort_entries es) (find-sort_entries x.0 es h.1 ∙ h.0)
    ∙ ap (λ o. if bytes_eq x.0 j then some x.1 else o) (find-sort_entries j es h.1)

pub sort_entries-Ascending : (es : List Entry) → Differ es → Ascending (sort_entries es)
unfolding sort_entries
sort_entries-Ascending [] h = tt
sort_entries-Ascending (x ∷ es) h =
    Ascending-insert_entry x (sort_entries es) (find-sort_entries x.0 es h.1 ∙ h.0)
      (sort_entries-Ascending es h.1)

pub Differ-select :
    (lower upper : Option Bytes) (es : List Entry) → Differ es → Differ (select lower upper es)
unfolding select
Differ-select lower upper [] h = tt
Differ-select lower upper ((k, v) ∷ es) h =
    let rest = Differ-select lower upper es h.1 in
    if_elim Differ (in_bounds lower upper k) ((k, v) ∷ select lower upper es)
      (select lower upper es) (ground (arith, find-select lower upper k es, h.0), rest) rest

Differ-put : (k v : Bytes) (es : List Entry) → Differ es → Differ (put k v es)
unfolding put
Differ-put k v es h = (find-remove k k es ∙ rw (bytes_eq_refl k) refl, Differ-remove k es h)

pub Differ-apply_ops : (ops : List Op) (es : List Entry) → Differ es → Differ (apply_ops ops es)
unfolding apply_ops apply_op
Differ-apply_ops [] es h = h
Differ-apply_ops (op ∷ ops) es h = Differ-apply_ops ops _ (
    if_elim Differ op.delete (remove op.key es) (put op.key op.value es) (Differ-remove op.key es h)
      (Differ-put op.key op.value es h))
