-- ===== src/Storage/Engine/Order.antt =====
-- internal/storage: the order of keys, and sorted lists of entries.
use gokvx.Prelude.{true, false, Bool-cases, [], ◌∷◌, arith, ◌≡◌, refl, ap, inl, inr}
use gokvx.Prelude.Bytes.{Bytes, bytes_eq, bytes_eq_iff}
use gokvx.Storage.Engine.{bytes_less}

pub bytes_less_irrefl : (a : Bytes) → bytes_less a a ≡ false
unfolding bytes_less
bytes_less_irrefl [] = refl
bytes_less_irrefl (x ∷ xs) = ground (arith, bytes_less_irrefl xs)

pub bytes_less_trans :
    (a b c : Bytes) → bytes_less a b ≡ true → bytes_less b c ≡ true → bytes_less a c ≡ true
unfolding bytes_less
bytes_less_trans a [] c h k = absurd (cc)
bytes_less_trans [] (y ∷ ys) [] h k = absurd (cc)
bytes_less_trans [] (y ∷ ys) (z ∷ zs) h k = refl
bytes_less_trans (x ∷ xs) (y ∷ ys) [] h k = absurd (cc)
bytes_less_trans (x ∷ xs) (y ∷ ys) (z ∷ zs) h k = ground (arith, bytes_less_trans xs ys zs)

-- Two keys, neither of which is below the other, are the same.
pub bytes_less_total : (a b : Bytes) → bytes_less a b ≡ false → bytes_less b a ≡ false → a ≡ b
unfolding bytes_less
bytes_less_total [] [] h k = refl
bytes_less_total [] (y ∷ ys) h k = absurd (cc)
bytes_less_total (x ∷ xs) [] h k = absurd (cc)
bytes_less_total (x ∷ xs) (y ∷ ys) h k = ground (arith, bytes_less_total xs ys)

pub bytes_less_ne : (a b : Bytes) → bytes_less a b ≡ true → bytes_eq a b ≡ false
bytes_less_ne a b h = elim (Bool-cases (bytes_eq a b)) [
  | inr e ↦ e
  | inl e ↦ absurd (irrefl ((bytes_eq_iff a b).0 e))
]
  where
    irrefl : a ≡ b → ⊥
    irrefl e = cc (bytes_less_irrefl b, h, ap (λ k. bytes_less k b) e)
