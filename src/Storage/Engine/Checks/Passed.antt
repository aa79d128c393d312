-- ===== src/Storage/Engine/Checks/Passed.antt =====
-- internal/storage/storagetest/contract.go: the checks on an engine that keeps the contract.
use gokvx.Prelude.{true, false, [], ◌∷◌, none, some, arith, ◌≡◌, refl, inl}
use gokvx.Prelude.Bytes.{Bytes, bytes_eq}
use gokvx.Kverr.Error.{canceled, reason_of, find_error, classify, is_canceled}
use gokvx.Kverr.Reason.{reason_canceled}
use gokvx.Storage.Engine.{empty_batch, set, delete, View, bytes_less, find, Engine, Contract}
use gokvx.Storage.Engine.Mem.{apply_ops, apply_op, put, remove, select, sort_entries, insert_entry}
use gokvx.Storage.Engine.Checks.{
  most_calls, key_k, contract_missing_key, contract_set_overwrite_delete, contract_batch,
  contract_last_op_wins, contract_unsigned_order, contract_bounds, contract_snapshot,
  contract_empty_iteration, contract_canceled_context, contract_closed,
}
use gokvx.Storage.Engine.Checks.Stores.{
  Stores, applied_ok, apply-Stores, set-Stores, get-Stores, cursor-Stores, scan-Stores,
  collected_with-Walks, stored, set_keys-Stores,
}

reason_of-canceled : reason_of (some canceled) ≡ reason_canceled
unfolding reason_of find_error classify is_canceled
reason_of-canceled = refl

module _ (e : Engine) (IsOpen IsClosed : e.State → Type 0) (view : e.State → View)
    (law : Contract e IsOpen IsClosed view) (s : e.State)
    (h : Stores e IsOpen IsClosed view law s []) where
  missing_key-Passes : contract_missing_key e s ≡ some tt
  unfolding contract_missing_key find
  missing_key-Passes =
      rw (get-Stores e IsOpen IsClosed view law (97 ∷ 98 ∷ 115 ∷ 101 ∷ 110 ∷ 116 ∷ []) s [] h) refl

  set_overwrite_delete-Passes : contract_set_overwrite_delete e s ≡ some tt
  unfolding contract_set_overwrite_delete apply_ops apply_op put remove bytes_eq
  set_overwrite_delete-Passes =
      let (s1, q1, h1) = set-Stores e IsOpen IsClosed view law key_k (118 ∷ 49 ∷ []) s [] h in
      let (s2, q2, h2) = set-Stores e IsOpen IsClosed view law key_k (118 ∷ 50 ∷ []) s1 _ h1 in
      let (s3, q3, h3) =
        apply-Stores e IsOpen IsClosed view law (delete key_k empty_batch) true s2 _ h2 in
      rw
        (
          q1,
          get-Stores e IsOpen IsClosed view law key_k s1 _ h1,
          q2,
          get-Stores e IsOpen IsClosed view law key_k s2 _ h2,
          q3,
          get-Stores e IsOpen IsClosed view law key_k s3 _ h3,
        )
        (unfold find in refl)

  batch-Passes : contract_batch e s ≡ some tt
  unfolding contract_batch apply_ops apply_op put remove bytes_eq select sort_entries insert_entry
      bytes_less
  batch-Passes =
      let (s1, q1, h1) =
        set-Stores e IsOpen IsClosed view law (103 ∷ 111 ∷ 110 ∷ 101 ∷ []) (120 ∷ []) s [] h in
      let (s2, q2, h2) =
        apply-Stores e IsOpen IsClosed view law
          (delete (103 ∷ 111 ∷ 110 ∷ 101 ∷ [])
            (set (98 ∷ []) (50 ∷ []) (set (97 ∷ []) (49 ∷ []) empty_batch)))
          false s1 _ h1 in
      rw (q1, q2, scan-Stores e IsOpen IsClosed view law none none s2 _ h2 (ground arith)) refl

  last_op_wins-Passes : contract_last_op_wins e s ≡ some tt
  unfolding contract_last_op_wins apply_ops apply_op put remove bytes_eq
  last_op_wins-Passes =
      let (s1, q1, h1) =
        apply-Stores e IsOpen IsClosed view law
          (set key_k (108 ∷ 97 ∷ 115 ∷ 116 ∷ [])
            (delete key_k (set key_k (102 ∷ 105 ∷ 114 ∷ 115 ∷ 116 ∷ []) empty_batch)))
          true s [] h in
      rw (q1, get-Stores e IsOpen IsClosed view law key_k s1 _ h1) (unfold find in refl)

  unsigned_order-Passes : contract_unsigned_order e s ≡ some tt
  unfolding contract_unsigned_order apply_ops apply_op put remove bytes_eq select sort_entries
      insert_entry bytes_less stored
  unsigned_order-Passes =
      let (s1, q1, h1) =
        set_keys-Stores e IsOpen IsClosed view law
          ((255 ∷ []) ∷ (98 ∷ []) ∷ (0 ∷ []) ∷ (97 ∷ []) ∷ (128 ∷ []) ∷ (97 ∷ 98 ∷ []) ∷ [])
          (118 ∷ []) s [] h in
      rw (q1, scan-Stores e IsOpen IsClosed view law none none s1 _ h1 (ground arith)) refl

  bounds-Passes : contract_bounds e s ≡ some tt
  unfolding contract_bounds apply_ops apply_op put remove bytes_eq select sort_entries insert_entry
      bytes_less stored
  bounds-Passes =
      let (s1, q1, h1) =
        set_keys-Stores e IsOpen IsClosed view law
          ((97 ∷ []) ∷ (98 ∷ []) ∷ (99 ∷ []) ∷ (100 ∷ []) ∷ []) (118 ∷ []) s [] h in
      rw
        (
          q1,
          scan-Stores e IsOpen IsClosed view law (some (98 ∷ [])) (some (100 ∷ [])) s1 _ h1
              (ground arith),
          scan-Stores e IsOpen IsClosed view law (some (99 ∷ [])) none s1 _ h1 (ground arith),
          scan-Stores e IsOpen IsClosed view law none (some (98 ∷ [])) s1 _ h1 (ground arith),
          scan-Stores e IsOpen IsClosed view law (some (98 ∷ [])) (some (98 ∷ [])) s1 _ h1
              (ground arith),
        )
        refl

  snapshot-Passes : contract_snapshot e s ≡ some tt
  unfolding contract_snapshot apply_ops apply_op put remove bytes_eq select sort_entries
      insert_entry bytes_less
  snapshot-Passes =
      let (s1, q1, h1) = set-Stores e IsOpen IsClosed view law (97 ∷ []) (118 ∷ []) s [] h in
      let (c, q, w) = cursor-Stores e IsOpen IsClosed view law none none s1 _ h1 in
      let (s2, q2, h2) = set-Stores e IsOpen IsClosed view law (98 ∷ []) (118 ∷ []) s1 _ h1 in
      rw (q1, q, q2, collected_with-Walks e (118 ∷ []) most_calls c _ w (ground arith) (refl, tt))
        refl

  empty_iteration-Passes : contract_empty_iteration e s ≡ some tt
  unfolding contract_empty_iteration select sort_entries insert_entry bytes_less
  empty_iteration-Passes =
      rw (scan-Stores e IsOpen IsClosed view law none none s [] h (ground arith)) refl

  canceled_context-Passes : contract_canceled_context e s ≡ some tt
  unfolding contract_canceled_context
  canceled_context-Passes =
      let (x, p, a) = law.get_canceled s canceled key_k (inl refl) h.0 in
      let (y, q, b) = (law.apply_canceled s canceled empty_batch true (inl refl) h.0).0 in
      let (z, r, c) = law.iterate_canceled s canceled none none (inl refl) h.0 in
      rw (p, a, q, b, r, c, reason_of-canceled) refl

  closed-Passes : contract_closed e s ≡ some tt
  unfolding contract_closed
  closed-Passes =
      let (p, c1) = law.close_open s h.0 in
      let (q, c2) = law.close_again (e.close s).1 c1 in
      let (x, u) = law.get_closed (e.close (e.close s).1).1 none key_k c2 in
      let (y, v) = law.apply_closed (e.close (e.close s).1).1 none empty_batch true c2 in
      let (z, w) = law.iterate_closed (e.close (e.close s).1).1 none none none c2 in
      rw
        (
          applied_ok e IsOpen IsClosed view law (e.close s) p,
          applied_ok e IsOpen IsClosed view law (e.close (e.close s).1) q,
          u,
          v,
          w,
        )
        refl

-- What RunEngineContract runs, but for the check of buffers.
abbrev pub Passes : (e : Engine) → e.State → Type 0
Passes e s =
    (contract_missing_key e s ≡ some tt)
    × (contract_set_overwrite_delete e s ≡ some tt)
    × (contract_batch e s ≡ some tt)
    × (contract_last_op_wins e s ≡ some tt)
    × (contract_unsigned_order e s ≡ some tt)
    × (contract_bounds e s ≡ some tt)
    × (contract_snapshot e s ≡ some tt)
    × (contract_empty_iteration e s ≡ some tt)
    × (contract_canceled_context e s ≡ some tt)
    × (contract_closed e s ≡ some tt)

-- Every engine that keeps the contract passes each of the ten checks on an open state that holds
-- nothing; no loop over an iterator reaches the bound on its calls.
pub Contract-Passes :
    (e : Engine) (IsOpen IsClosed : e.State → Type 0) (view : e.State → View)
    (law : Contract e IsOpen IsClosed view) (s : e.State)
    → IsOpen s
    → ((k : Bytes) → view s k ≡ none)
    → Passes e s
unfolding find
Contract-Passes e IsOpen IsClosed view law s open_s nothing = (
  missing_key-Passes e IsOpen IsClosed view law s h,
  set_overwrite_delete-Passes e IsOpen IsClosed view law s h,
  batch-Passes e IsOpen IsClosed view law s h,
  last_op_wins-Passes e IsOpen IsClosed view law s h,
  unsigned_order-Passes e IsOpen IsClosed view law s h,
  bounds-Passes e IsOpen IsClosed view law s h,
  snapshot-Passes e IsOpen IsClosed view law s h,
  empty_iteration-Passes e IsOpen IsClosed view law s h,
  canceled_context-Passes e IsOpen IsClosed view law s h,
  closed-Passes e IsOpen IsClosed view law s h,
)
  where
    h : Stores e IsOpen IsClosed view law s []
    h = (open_s, nothing, tt)
