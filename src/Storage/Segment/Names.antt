-- ===== src/Storage/Segment/Names.antt =====
-- internal/storage/segment.go: the names of segment files, written and read back.
use gokvx.Prelude.{
  ℕ, zero, suc, ◌+◌, ◌-◌, ◌*◌, ◌/◌, ◌%◌, ◌^◌, ◌<◌, ltb, ◌==◌, ==_iff, lt→ltb, ltb→lt, true,
  Bool-cases, Option-cases, [], ◌∷◌, ◌++◌, length, length-append, take-append, drop-append, none,
  some, arith, ◌≡◌, refl, ap, sym, ◌∙◌, inl, inr,
}
use gokvx.Prelude.Bytes.{Bytes, bytes_eq, bytes_eq_iff}
use gokvx.Storage.Segment.{
  segment_suffix, segment_digits, decimal, segment_name, cut_suffix, is_digit, digits_value,
  parse_uint, parse_digits, parse_segment_name,
}

length-decimal : (n v : ℕ) → length (decimal n v) ≡ n
unfolding decimal
length-decimal zero v = refl
length-decimal (suc n) v =
    rw (length-append (decimal n (v / 10)) ((b'0' + v % 10) ∷ []))
      (omega (arith, length-decimal n (v / 10)))

is_digit-digit : (d : ℕ) → d < 10 → is_digit (b'0' + d) ≡ true
unfolding is_digit
is_digit-digit d h = ground (arith, h)

digits_value-digit : (acc d : ℕ) → d < 10 → digits_value acc ((b'0' + d) ∷ []) ≡ some (acc * 10 + d)
unfolding digits_value
digits_value-digit acc d h = rw (is_digit-digit d h) (ap some (omega arith))

digits_value-snoc :
    (acc v d : ℕ) (bs : Bytes)
    → digits_value acc bs ≡ some v
    → d < 10
    → digits_value acc (bs ++ (b'0' + d) ∷ []) ≡ some (v * 10 + d)
unfolding digits_value
digits_value-snoc acc v d [] h k =
    digits_value-digit acc d k ∙ ap some (ap (λ x. x * 10 + d) (same h))
  where
    same : some acc ≡ some v → acc ≡ v
    same e = cc
digits_value-snoc acc v d (b ∷ bs) h k = elim (Bool-cases (is_digit b)) [
  | inl e ↦ rw e (digits_value-snoc (acc * 10 + (b - b'0')) v d bs (rw e at h) k)
  | inr e ↦ absurd (not_none (rw e at h))
]
  where
    not_none : none ≡ some v → ⊥
    not_none p = cc

-- The digits that are printed are read back.
digits_value-decimal : (n v : ℕ) → v < 10 ^ n → digits_value 0 (decimal n v) ≡ some v
unfolding digits_value decimal
digits_value-decimal zero v h = ap some (omega (arith, h))
digits_value-decimal (suc n) v h =
    digits_value-snoc 0 (v / 10) (v % 10) (decimal n (v / 10))
      (digits_value-decimal n (v / 10) (fewer n v h)) (omega arith)
    ∙ ap some (omega arith)
  where
    fewer : (n v : ℕ) → v < 10 ^ suc n → v / 10 < 10 ^ n
    fewer n v h = omega (arith, h)

parse_uint-some :
    (ds : Bytes) (v : ℕ)
    → 0 < length ds
    → digits_value 0 ds ≡ some v
    → v < 2 ^ 64
    → parse_uint ds ≡ some v
unfolding parse_uint
parse_uint-some [] v pos e h = absurd (omega (arith, pos))
parse_uint-some (b ∷ bs) v pos e h = rw (parse_uint, e, lt→ltb v (2 ^ 64) h) refl

parse_uint-lt : (ds : Bytes) (v : ℕ) → parse_uint ds ≡ some v → v < 2 ^ 64
unfolding parse_uint
parse_uint-lt [] v e = absurd (cc)
parse_uint-lt (b ∷ bs) v e = elim (Option-cases (digits_value 0 (b ∷ bs))) [
  | inl p ↦ absurd (not_none (rw (p, parse_uint) at e))
  | inr (u, p) ↦ elim (Bool-cases (ltb u (2 ^ 64))) [
    | inl q ↦ fits q (rw (p, parse_uint, q) at e)
    | inr q ↦ absurd (not_none (rw (p, parse_uint, q) at e))
  ]
]
  where
    not_none : none ≡ some v → ⊥
    not_none p = cc

    fits : {u : ℕ} → ltb u (2 ^ 64) ≡ true → some u ≡ some v → v < 2 ^ 64
    fits {u} q r = omega (arith, ltb→lt u (2 ^ 64) q, same r)
      where
        same : some u ≡ some v → u ≡ v
        same e = cc

size_before : (bs : Bytes) → length (bs ++ segment_suffix) - length segment_suffix ≡ length bs
size_before bs = omega (arith, length-append bs segment_suffix)

cut_suffix-append : (bs : Bytes) → cut_suffix (bs ++ segment_suffix) ≡ some bs
unfolding cut_suffix
cut_suffix-append bs =
    rw
      (
        size_before bs,
        drop-append (length bs) bs segment_suffix refl,
        take-append (length bs) bs segment_suffix refl,
        (bytes_eq_iff segment_suffix segment_suffix).1 refl,
      )
      refl

parse_digits-some :
    (name ds : Bytes) (v : ℕ)
    → length ds ≡ segment_digits
    → parse_uint ds ≡ some v
    → segment_name v ≡ name
    → parse_digits name ds ≡ some v
unfolding parse_digits
parse_digits-some name ds v e p q =
    rw
      (
        (==_iff (length ds) segment_digits).1 e,
        parse_digits,
        p,
        (bytes_eq_iff (segment_name v) name).1 q,
      )
      refl

-- The name of a segment is read back as its first index, for every index.
pub parse_segment_name-segment_name :
    (v : ℕ) → v < 2 ^ 64 → parse_segment_name (segment_name v) ≡ some v
unfolding parse_segment_name
parse_segment_name-segment_name v h =
    rw (parse_segment_name, cut)
      (parse_digits-some (segment_name v) digits v size
        (parse_uint-some digits v (rw size (omega arith))
          (digits_value-decimal segment_digits v (omega (arith, h))) h)
        refl)
  where
    digits : Bytes
    digits = decimal segment_digits v

    size : length digits ≡ segment_digits
    size = length-decimal segment_digits v

    cut : cut_suffix (segment_name v) ≡ some (decimal segment_digits v)
    cut = unfold segment_name in cut_suffix-append (decimal segment_digits v)

parse_digits_exact :
    (name ds : Bytes) (v : ℕ)
    → parse_digits name ds ≡ some v
    → (name ≡ segment_name v) × (v < 2 ^ 64)
unfolding parse_digits
parse_digits_exact name ds v h = elim (Bool-cases (length ds == segment_digits)) [
  | inr e ↦ absurd (not_none (rw e at h))
  | inl e ↦ elim (Option-cases (parse_uint ds)) [
    | inl p ↦ absurd (not_none (rw (e, parse_digits, p) at h))
    | inr (u, p) ↦ elim (Bool-cases (bytes_eq (segment_name u) name)) [
      | inr q ↦ absurd (not_none (rw (e, parse_digits, p, q) at h))
      | inl q ↦
          result u p ((bytes_eq_iff (segment_name u) name).0 q) (rw (e, parse_digits, p, q) at h)
    ]
  ]
]
  where
    not_none : none ≡ some v → ⊥
    not_none p = cc

    result :
        (u : ℕ)
        → parse_uint ds ≡ some u
        → segment_name u ≡ name
        → some u ≡ some v
        → (name ≡ segment_name v) × (v < 2 ^ 64)
    result u p q r = (sym q ∙ ap segment_name (same r), parse_uint-lt ds v (p ∙ r))
      where
        same : some u ≡ some v → u ≡ v
        same e = cc

-- A name that is accepted is the one that the code writes for the index, and the index is a uint64.
pub parse_segment_name_exact :
    (name : Bytes) (v : ℕ)
    → parse_segment_name name ≡ some v
    → (name ≡ segment_name v) × (v < 2 ^ 64)
unfolding parse_segment_name
parse_segment_name_exact name v h = elim (Option-cases (cut_suffix name)) [
  | inl p ↦ absurd (not_none (rw (p, parse_segment_name) at h))
  | inr (ds, p) ↦ parse_digits_exact name ds v (rw (p, parse_segment_name) at h)
]
  where
    not_none : none ≡ some v → ⊥
    not_none p = cc
