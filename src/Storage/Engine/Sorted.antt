-- ===== src/Storage/Engine/Sorted.antt =====
-- internal/storage/engine.go: lists of entries in ascending order, as iterators walk them.
use gokvx.Prelude.{
  true, false, Bool-cases, List, [], ◌∷◌, none, arith, ◌≡◌, ◌≢◌, refl, ap, sym, ◌∙◌, inl, inr,
}
use mathlib.Core.Path.{subst}
use gokvx.Prelude.Bytes.{Bytes, bytes_eq, bytes_eq_iff, bytes_eq_refl}
use gokvx.Storage.Engine.{Entry, bytes_less, find, Above, Ascending}
use gokvx.Storage.Engine.Order.{bytes_less_irrefl, bytes_less_trans, bytes_less_total}

greater_ne : (a b : Bytes) → bytes_less a b ≡ true → bytes_eq b a ≡ false
greater_ne a b h = elim (Bool-cases (bytes_eq b a)) [
  | inr e ↦ e
  | inl e ↦ absurd (irrefl ((bytes_eq_iff b a).0 e))
]
  where
    irrefl : b ≡ a → ⊥
    irrefl p = cc (bytes_less_irrefl b, h, ap (λ k. bytes_less k b) p)

-- A key below all keys of a list is not in it.
Above-find : (k : Bytes) (es : List Entry) → Above k es → find k es ≡ none
unfolding find
Above-find k [] h = refl
Above-find k ((j, v) ∷ es) h = ground (arith, greater_ne k j h.0, Above-find k es h.1)

pub Above-trans : (j k : Bytes) (es : List Entry) → bytes_less j k ≡ true → Above k es → Above j es
Above-trans j k [] h a = tt
Above-trans j k (x ∷ es) h a = (bytes_less_trans j k x.0 h a.0, Above-trans j k es h a.1)

-- The first key of a list is not in one whose keys are all above it.
first_below :
    (k j : Bytes) (v u : Bytes) (xs ys : List Entry)
    → bytes_less k j ≡ true
    → Above j ys
    → find k ((k, v) ∷ xs) ≢ find k ((j, u) ∷ ys)
unfolding find
first_below k j v u xs ys h a p =
    ground (arith, p, bytes_eq_refl k, greater_ne k j h, Above-find k ys (Above-trans k j ys h a))

rest_same :
    (k v : Bytes) (xs ys : List Entry) (i : Bytes)
    → Above k xs
    → Above k ys
    → find i ((k, v) ∷ xs) ≡ find i ((k, v) ∷ ys)
    → find i xs ≡ find i ys
unfolding find
rest_same k v xs ys i a b h = elim (Bool-cases (bytes_eq k i)) [
  | inl e ↦
      let same = (bytes_eq_iff k i).0 e in
      ap (λ m. find m xs) (sym same)
      ∙ Above-find k xs a
      ∙ sym (ap (λ m. find m ys) (sym same) ∙ Above-find k ys b)
  | inr e ↦ ground (arith, e, h)
]

-- Lists in ascending order with the same values are the same.
pub Ascending-unique :
    (xs ys : List Entry)
    → Ascending xs
    → Ascending ys
    → ((k : Bytes) → find k xs ≡ find k ys)
    → xs ≡ ys
unfolding find
Ascending-unique [] [] a b h = refl
Ascending-unique [] ((k, v) ∷ ys) a b h = absurd (ground (arith, h k, bytes_eq_refl k))
Ascending-unique ((k, v) ∷ xs) [] a b h = absurd (ground (arith, h k, bytes_eq_refl k))
Ascending-unique ((k, v) ∷ xs) ((j, u) ∷ ys) a b h = elim (Bool-cases (bytes_less k j)) [
  | inl e ↦ absurd (first_below k j v u xs ys e b.0 (h k))
  | inr e ↦ elim (Bool-cases (bytes_less j k)) [
    | inl f ↦ absurd (first_below j k u v ys xs f a.0 (sym (h j)))
    | inr f ↦
        let p = bytes_less_total k j e f in cons_same p (Ascending-unique xs ys a.1 b.1 (rest p))
  ]
]
  where
    value_same : k ≡ j → v ≡ u
    value_same p = ground (arith, h k, bytes_eq_refl k, p)

    same_head : k ≡ j → (i : Bytes) → find i ((j, u) ∷ ys) ≡ find i ((k, v) ∷ ys)
    same_head p i =
        ap (λ m. find i ((m, u) ∷ ys)) (sym p) ∙ ap (λ w. find i ((k, w) ∷ ys)) (sym (value_same p))

    rest : k ≡ j → (i : Bytes) → find i xs ≡ find i ys
    rest p i = rest_same k v xs ys i a.0 (subst (λ m. Above m ys) (sym p) b.0) (h i ∙ same_head p i)

    cons_same : k ≡ j → xs ≡ ys → (k, v) ∷ xs ≡ (j, u) ∷ ys
    cons_same p q = cc (p, value_same p, q)
