-- ===== src/Storage/Record/Later.antt =====
-- hasLaterRecord decides whether an intact record with a later index stands behind the damage.
use gokvx.Prelude.{
  ℕ, zero, suc, ◌-◌, ◌≤◌, ◌<◌, ◌≡◌, refl, ap, ◌∙◌, take-take, drop-nil, true, ◌↔◌, inl, inr, [],
  ◌∷◌, length, take, drop, length-drop, ok, arith, Bool-cases, Result-cases,
}
use gokvx.Prelude.Bytes.{Bytes, le_value}
use gokvx.Storage.Record.{Decoded, decode_record, is_later, later_from, has_later_record}
use gokvx.Storage.Record.Codec.{decode_record-Accepted}

-- An intact record starts at offset `p` of `tail`, with an index above `damaged` that the bytes
-- behind the damage can have reached.
pub record LaterAt (tail : Bytes) (damaged p : ℕ) : Type 0 where
  pub found : Decoded
  pub intact : decode_record (drop p tail) ≡ ok found
  pub later : damaged < found.index
  pub near : found.index - damaged ≤ length tail

is_later_sound :
    (d n : ℕ) (xs : Bytes)
    → is_later d n xs ≡ true
    → (r : Decoded) × (decode_record xs ≡ ok r) × (d < r.index) × (r.index - d ≤ n)
unfolding is_later
is_later_sound d n xs h = elim (Result-cases (decode_record xs)) [
  | inl (r, e) ↦ (r, e, ground arith, ground arith)
  | inr (x, e) ↦ absurd (ground arith)
]

-- The index that the loop peeks at is the one that is decoded.
peeked :
    (xs : Bytes) (r : Decoded) → decode_record xs ≡ ok r → r.index ≡ le_value (take 8 (drop 8 xs))
peeked xs r e =
    let a = decode_record-Accepted xs r e in
    a.index_eq ∙ ap le_value (take-take 8 _ (drop 8 xs) (omega (arith, a.size_eq, a.size_min)))

is_later_complete :
    (d n : ℕ) (xs : Bytes) (r : Decoded)
    → decode_record xs ≡ ok r
    → d < r.index
    → r.index - d ≤ n
    → is_later d n xs ≡ true
unfolding is_later
is_later_complete d n xs r e lo hi = ground (arith, peeked xs r e)

later_from_sound :
    (d n : ℕ) (xs : Bytes)
    → later_from d n xs ≡ true
    → (p : ℕ) × (r : Decoded) × (decode_record (drop p xs) ≡ ok r)
      × (d < r.index)
      × (r.index - d ≤ n)
unfolding later_from
later_from_sound d n [] h = absurd (cc)
later_from_sound d n (b ∷ bs) h = elim (Bool-cases (is_later d n (b ∷ bs))) [
  | inl e ↦ let (r, x, y, z) = is_later_sound d n (b ∷ bs) e in (0, r, x, y, z)
  | inr e ↦ let (p, r, x, y, z) = later_from_sound d n bs (ground arith) in (suc p, r, x, y, z)
]

later_from_complete :
    (d n p : ℕ) (xs : Bytes) (r : Decoded)
    → decode_record (drop p xs) ≡ ok r
    → d < r.index
    → r.index - d ≤ n
    → later_from d n xs ≡ true
unfolding later_from
later_from_complete d n p [] r e lo hi =
    let a = decode_record-Accepted (drop p []) r e in
    absurd (omega (arith, a.size_min, a.fits, ap length (drop-nil {A = ℕ} p)))
later_from_complete d n zero (b ∷ bs) r e lo hi =
    ground (arith, is_later_complete d n (b ∷ bs) r, decode_record-Accepted (b ∷ bs) r e)
later_from_complete d n (suc p) (b ∷ bs) r e lo hi =
    ground (arith, later_from_complete d n p bs r, long)
  where
    long : 16 ≤ length bs - p
    long =
        let a = decode_record-Accepted (drop p bs) r e in
        omega (arith, a.size_min, a.fits, length-drop p bs)

drop_one : (p : ℕ) (xs : Bytes) → drop p (drop 1 xs) ≡ drop (suc p) xs
drop_one p [] = drop-nil p
drop_one p (x ∷ xs) = refl

-- hasLaterRecord answers true exactly when some offset from 1 on holds an intact record with a
-- later index within reach.
pub has_later_record_iff :
    (tail : Bytes) (damaged : ℕ)
    → (has_later_record tail damaged ≡ true) ↔ ((p : ℕ) × LaterAt tail damaged (suc p))
unfolding has_later_record
has_later_record_iff tail damaged = (
  λ h.
      let (p, r, e, lo, hi) = later_from_sound damaged (length tail) (drop 1 tail) h in
      (p, record { found = r; intact = rw (← drop_one p tail) e; later = lo; near = hi }),
  λ (p, at).
      later_from_complete damaged (length tail) p (drop 1 tail) at.found
        (rw (drop_one p tail) at.intact) at.later at.near,
)
