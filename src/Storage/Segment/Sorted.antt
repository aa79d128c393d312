-- ===== src/Storage/Segment/Sorted.antt =====
-- listSegments of internal/storage/segment.go: names that are listed in any order, and the sort.
use mathlib.Core.List.{Permᴰ}
use mathlib.Core.Path.{subst}
use gokvx.Prelude.{
  ℕ, ◌≤◌, ◌<◌, ltb, ltb→lt, if◌then◌else◌, ◌≡◌, refl, ap, ◌∙◌, sym, true, false, List, [], ◌∷◌, map,
  ok, arith, All, Bool-cases, inl, inr,
}
use gokvx.Prelude.Words.{u64_mod}
use gokvx.Storage.Segment.{Segment, segment_name, collect_segments, insert_segment, sort_segments}
use gokvx.Storage.Segment.Names.{parse_segment_name-segment_name}

abbrev pub listed : ℕ → Segment
listed i = record { first = i; last = 0; path = segment_name i }

pub collect-listed :
    (is : List ℕ)
    → All (λ i. i < u64_mod) is
    → collect_segments (map (λ k. (k, true)) (map segment_name is)) ≡ ok (map listed is)
unfolding collect_segments
collect-listed [] h = refl
collect-listed (i ∷ is) h =
    rw (collect_segments, parse_segment_name-segment_name i h.0, collect-listed is h.1) refl

-- Numbers that do not descend, from `low` up to `high`.
abbrev pub Chain : ℕ → List ℕ → ℕ → Type 0
Chain low [] high = low ≤ high
Chain low (x ∷ xs) high = (low ≤ x) × Chain x xs high

Chain-high : (low : ℕ) (xs : List ℕ) (high : ℕ) → Chain low xs high → low ≤ high
Chain-high low [] high h = h
Chain-high low (x ∷ xs) high h = omega (arith, h.0, Chain-high x xs high h.1)

pub Chain-low :
    (lower low : ℕ) (xs : List ℕ) (high : ℕ) → Chain low xs high → lower ≤ low → Chain lower xs high
Chain-low lower low [] high h k = omega (arith, h, k)
Chain-low lower low (x ∷ xs) high h k = (omega (arith, h.0, k), h.1)

pub Chain-All :
    (low : ℕ) (xs : List ℕ) (high : ℕ)
    → Chain low xs high
    → high < u64_mod
    → All (λ i. i < u64_mod) xs
Chain-All low [] high h k = tt
Chain-All low (x ∷ xs) high h k =
    (omega (arith, Chain-high x xs high h.1), Chain-All x xs high h.1 k)

pub All-Permᴰ {ℓ κ} :
    {A : Type ℓ} (P : A → Type κ) {xs ys : List A} → Permᴰ xs ys → All P ys → All P xs
All-Permᴰ P Permᴰ.nil h = tt
All-Permᴰ P (Permᴰ.cons e p) h = (subst P (sym e) h.0, All-Permᴰ P p h.1)
All-Permᴰ P (Permᴰ.swap e f) h = (subst P (sym e) h.1.0, (subst P (sym f) h.0, h.1.1))
All-Permᴰ P (Permᴰ.trans p q) h = All-Permᴰ P p (All-Permᴰ P q h)

ltb-not : (a b : ℕ) → a ≤ b → ltb b a ≡ false
ltb-not a b h = ground arith

not-ltb : (a b : ℕ) → ltb a b ≡ false → b ≤ a
not-ltb a b h = ground arith

put :
    (a : ℕ) (s : Segment) (ss : List Segment)
    → insert_segment (listed a) (s ∷ ss)
      ≡ (if ltb s.first a then s ∷ insert_segment (listed a) ss else listed a ∷ s ∷ ss)
unfolding insert_segment
put a s ss = refl

put_front :
    (a : ℕ) (s : Segment) (ss : List Segment)
    → ltb s.first a ≡ false
    → insert_segment (listed a) (s ∷ ss) ≡ listed a ∷ s ∷ ss
put_front a s ss h = rw (put a s ss, h) refl

put_past :
    (a : ℕ) (s : Segment) (ss : List Segment)
    → ltb s.first a ≡ true
    → insert_segment (listed a) (s ∷ ss) ≡ s ∷ insert_segment (listed a) ss
put_past a s ss h = rw (put a s ss, h) refl

same : (a b : ℕ) → ltb a b ≡ false → ltb b a ≡ false → a ≡ b
same a b h k = omega (arith, not-ltb a b h, not-ltb b a k)

-- Two numbers in front of a list on which both stay in front.
both_front :
    (a b : ℕ) (ss : List Segment)
    → insert_segment (listed a) ss ≡ listed a ∷ ss
    → insert_segment (listed b) ss ≡ listed b ∷ ss
    → insert_segment (listed a) (listed b ∷ ss) ≡ insert_segment (listed b) (listed a ∷ ss)
both_front a b ss h k = elim (Bool-cases (ltb a b)) [
  | inl e ↦
      put_front a (listed b) ss (ltb-not a b (omega (arith, ltb→lt a b e)))
      ∙ sym (put_past b (listed a) ss e ∙ ap (λ t. listed a ∷ t) k)
  | inr e ↦ elim (Bool-cases (ltb b a)) [
    | inl f ↦
        put_past a (listed b) ss f ∙ ap (λ t. listed b ∷ t) h ∙ sym (put_front b (listed a) ss e)
    | inr f ↦
        put_front a (listed b) ss f
        ∙ ap (λ n. listed n ∷ listed b ∷ ss) (same a b e f)
        ∙ ap (λ n. listed b ∷ listed n ∷ ss) (sym (same a b e f))
        ∙ sym (put_front b (listed a) ss e)
  ]
]

between : (a b c : ℕ) → ltb c a ≡ false → ltb c b ≡ true → ltb a b ≡ true
between a b c h k = ground arith

-- One number goes in front of `c`, and the other past it.
one_front :
    (a b : ℕ) (c : Segment) (ss : List Segment)
    → ltb c.first a ≡ false
    → ltb c.first b ≡ true
    → insert_segment (listed a) (insert_segment (listed b) (c ∷ ss))
      ≡ insert_segment (listed b) (insert_segment (listed a) (c ∷ ss))
one_front a b c ss e f =
    ap (insert_segment (listed a)) (put_past b c ss f)
    ∙ put_front a c (insert_segment (listed b) ss) e
    ∙ sym (
        ap (insert_segment (listed b)) (put_front a c ss e)
        ∙ put_past b (listed a) (c ∷ ss) (between a b c.first e f)
        ∙ ap (λ t. listed a ∷ t) (put_past b c ss f))

insert_swap :
    (a b : ℕ) (ss : List Segment)
    → insert_segment (listed a) (insert_segment (listed b) ss)
      ≡ insert_segment (listed b) (insert_segment (listed a) ss)
insert_swap a b [] = unfold insert_segment in both_front a b [] refl refl
insert_swap a b (c ∷ ss) = elim (Bool-cases (ltb c.first a)) [
  | inl e ↦ elim (Bool-cases (ltb c.first b)) [
    | inl f ↦
        ap (insert_segment (listed a)) (put_past b c ss f)
        ∙ put_past a c (insert_segment (listed b) ss) e
        ∙ ap (λ t. c ∷ t) (insert_swap a b ss)
        ∙ sym (
            ap (insert_segment (listed b)) (put_past a c ss e)
            ∙ put_past b c (insert_segment (listed a) ss) f)
    | inr f ↦ sym (one_front b a c ss f e)
  ]
  | inr e ↦ elim (Bool-cases (ltb c.first b)) [
    | inl f ↦ one_front a b c ss e f
    | inr f ↦
        ap (insert_segment (listed a)) (put_front b c ss f)
        ∙ both_front a b (c ∷ ss) (put_front a c ss e) (put_front b c ss f)
        ∙ sym (ap (insert_segment (listed b)) (put_front a c ss e))
  ]
]

pub sort-Permᴰ :
    (xs ys : List ℕ) → Permᴰ xs ys → sort_segments (map listed xs) ≡ sort_segments (map listed ys)
unfolding sort_segments
sort-Permᴰ _ _ Permᴰ.nil = refl
sort-Permᴰ _ _ (Permᴰ.cons {a} {b} {l₁ = xs} {l₂ = ys} e p) =
    rw e (ap (insert_segment (listed b)) (sort-Permᴰ xs ys p))
sort-Permᴰ _ _ (Permᴰ.swap {a} {b} {l} e f) =
    rw (← e, ← f) (insert_swap a b (sort_segments (map listed l)))
sort-Permᴰ xs zs (Permᴰ.trans {l₂ = ys} p q) = sort-Permᴰ xs ys p ∙ sort-Permᴰ ys zs q

pub sort-Chain :
    (low : ℕ) (xs : List ℕ) (high : ℕ)
    → Chain low xs high
    → sort_segments (map listed xs) ≡ map listed xs
unfolding sort_segments insert_segment
sort-Chain low [] high h = refl
sort-Chain low (x ∷ []) high h = refl
sort-Chain low (x ∷ y ∷ ys) high h =
    ap (insert_segment (listed x)) (sort-Chain x (y ∷ ys) high h.1)
    ∙ rw (ltb-not x y h.1.0, insert_segment) refl
