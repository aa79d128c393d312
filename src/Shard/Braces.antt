-- ===== src/Shard/Braces.antt =====
-- internal/shard/slot.go: the brace rule, and the range of slots.
use gokvx.Prelude.{
  ℕ, suc, ◌+◌, ◌%◌, ◌<◌, ◌==◌, ==_iff, true, false, Bool-cases, take-append, length-append, [], ◌∷◌,
  ◌++◌, length, drop, none, some, Result, ok, err, ok-ne-err, arith, All, ◌≡◌, ◌≢◌, ◌⊎◌, inl, inr,
  refl, ap, sym, ◌∙◌,
}
use mathlib.Core.Path.{subst}
use native.Mathlib.Nat.{mod-lt}
use gokvx.Prelude.Bytes.{Bytes}
use gokvx.Storage.Crc.{checksum}
use gokvx.Kverr.Error.{GoError, as_error, new}
use gokvx.Kverr.Reason.{reason_invalid_argument}
use gokvx.Shard.{Slotter, new_slotter, index_byte, between, hash_input, slot}

-- No byte of `bs` is `c`.
abbrev Free : ℕ → Bytes → Type 0
Free c = All (λ b. b ≢ c)

-- Where a byte stands first, and what is before it.
record At (bs : Bytes) (c : ℕ) (i : ℕ) : Type 0 where
  before : Bytes
  after : Bytes
  whole : bs ≡ before ++ c ∷ after
  size : length before ≡ i
  free : Free c before

==_false : (a b : ℕ) → (a == b) ≡ false → a ≢ b
==_false a b h e = absurd (ground arith)

index_byte_first :
    (before after : Bytes) (c : ℕ)
    → Free c before
    → index_byte (before ++ c ∷ after) c ≡ some (length before)
unfolding index_byte
index_byte_first [] after c h = rw ((==_iff c c).1 refl) refl
index_byte_first (b ∷ bs) after c h = elim (Bool-cases (b == c)) [
  | inl e ↦ absurd (h.0 ((==_iff b c).0 e))
  | inr e ↦ rw (e, index_byte_first bs after c h.1) refl
]

index_byte_absent : (bs : Bytes) (c : ℕ) → Free c bs → index_byte bs c ≡ none
unfolding index_byte
index_byte_absent [] c h = refl
index_byte_absent (b ∷ bs) c h = elim (Bool-cases (b == c)) [
  | inl e ↦ absurd (h.0 ((==_iff b c).0 e))
  | inr e ↦ rw (e, index_byte_absent bs c h.1) refl
]

-- A byte is absent, or stands first at some place.
index_byte-cases : (bs : Bytes) (c : ℕ) → Free c bs ⊎ ((i : ℕ) × At bs c i)
index_byte-cases [] c = inl tt
index_byte-cases (b ∷ bs) c = elim (Bool-cases (b == c)) [
  | inl e ↦ inr (
    0,
    record {
      before = [];
      after = bs;
      whole = ap (λ x. x ∷ bs) ((==_iff b c).0 e);
      size = refl;
      free = tt;
    },
  )
  | inr e ↦ elim (index_byte-cases bs c) [
    | inl h ↦ inl (==_false b c e, h)
    | inr (i, h) ↦ inr (
      suc i,
      record {
        before = b ∷ h.before;
        after = h.after;
        whole = ap (λ t. b ∷ t) h.whole;
        size = ap suc h.size;
        free = (==_false b c e, h.free);
      },
    )
  ]
]

drop_past : (before after : Bytes) (c : ℕ) → drop (length before + 1) (before ++ c ∷ after) ≡ after
drop_past [] after c = refl
drop_past (b ∷ bs) after c = rw (suc_first (length bs)) (drop_past bs after c)
  where
    suc_first : (n : ℕ) → suc n + 1 ≡ suc (n + 1)
    suc_first n = omega arith

nonzero : (n : ℕ) → (n == 0) ≡ false → 0 < n
nonzero n h = ground arith

-- `part` is the partition key of `key`: it is not empty, and stands between the first '{' and the
-- first '}' after it.
pub record Partition (key part : Bytes) : Type 0 where
  pub before : Bytes
  pub after : Bytes
  pub whole : key ≡ before ++ (b'{' ∷ (part ++ (b'}' ∷ after)))
  pub before_free : Free b'{' before
  pub part_free : Free b'}' part
  pub some_part : 0 < length part

positive : (n : ℕ) → 0 < n → (n == 0) ≡ false
positive n h = ground arith

between-some :
    (key part after : Bytes)
    → 0 < length part
    → between key (part ++ after) (some (length part)) ≡ part
unfolding between
between-some key part after h =
    rw (positive (length part) h) (take-append (length part) part after refl)

-- What is hashed once the first '{' is found, and where there is none.
hash_input_open :
    (before rest : Bytes)
    → Free b'{' before
    → hash_input (before ++ (b'{' ∷ rest))
      ≡ between (before ++ (b'{' ∷ rest)) rest (index_byte rest b'}')
unfolding hash_input
hash_input_open before rest h =
    rw (hash_input, index_byte_first before rest b'{' h, drop_past before rest b'{') refl

hash_input_closed : (key : Bytes) → Free b'{' key → hash_input key ≡ key
unfolding hash_input
hash_input_closed key h = rw (hash_input, index_byte_absent key b'{' h) refl

-- The partition key of a key is what is hashed.
pub hash_input-Partition : (key part : Bytes) → Partition key part → hash_input key ≡ part
hash_input-Partition key part p =
    ap hash_input p.whole
    ∙ hash_input_open p.before (part ++ (b'}' ∷ p.after)) p.before_free
    ∙ ap (between _ (part ++ (b'}' ∷ p.after))) (index_byte_first part p.after b'}' p.part_free)
    ∙ between-some _ part (b'}' ∷ p.after) p.some_part

opened_whole :
    (key before rest : Bytes)
    → key ≡ before ++ (b'{' ∷ rest)
    → Free b'{' before
    → between (before ++ (b'{' ∷ rest)) rest (index_byte rest b'}') ≡ before ++ (b'{' ∷ rest)
    → hash_input key ≡ key
opened_whole key before rest e h k = ap hash_input e ∙ hash_input_open before rest h ∙ k ∙ sym e

between_empty : (key rest : Bytes) → between key rest (some 0) ≡ key
unfolding between
between_empty key rest = refl

between_open : (key rest : Bytes) → between key rest none ≡ key
unfolding between
between_open key rest = refl

-- Every key has a partition key, or is hashed whole.
pub Partition-cases : (key : Bytes) → ((part : Bytes) × Partition key part) ⊎ (hash_input key ≡ key)
Partition-cases key = elim (index_byte-cases key b'{') [
  | inl h ↦ inr (hash_input_closed key h)
  | inr (i, a) ↦ elim (index_byte-cases a.after b'}') [
    | inl h ↦ inr (
        opened_whole key a.before a.after a.whole a.free
          (ap (between _ a.after) (index_byte_absent a.after b'}' h) ∙ between_open _ a.after))
    | inr (j, b) ↦ elim (Bool-cases (j == 0)) [
      | inl z ↦ inr (
          opened_whole key a.before a.after a.whole a.free (
            ap (between _ a.after) (
              ap (λ t. index_byte t b'}') b.whole
              ∙ index_byte_first b.before b.after b'}' b.free
              ∙ ap some (b.size ∙ (==_iff j 0).0 z))
            ∙ between_empty _ a.after))
      | inr n ↦ inl (
        b.before,
        record {
          before = a.before;
          after = b.after;
          whole = a.whole ∙ ap (λ t. a.before ++ (b'{' ∷ t)) b.whole;
          before_free = a.free;
          part_free = b.free;
          some_part = rw b.size (nonzero j n);
        },
      )
    ]
  ]
]

-- What is hashed of a key that is hashed whole is longer than any partition key of it.
whole_only : (key : Bytes) → hash_input key ≡ key → ¬ ((part : Bytes) × Partition key part)
whole_only key e (part, p) = absurd (
    omega (
      arith,
      ap length (sym e ∙ hash_input-Partition key part p),
      ap length p.whole,
      length-append p.before (b'{' ∷ (part ++ (b'}' ∷ p.after))),
      length-append part (b'}' ∷ p.after),
    ))

-- What is hashed of a key: its partition key, and the whole key if it has none.
abbrev pub IsHashed : Bytes → Bytes → Type 0
IsHashed key span = Partition key span ⊎ ((¬ ((part : Bytes) × Partition key part)) × (span ≡ key))

hash_input-IsHashed : (key : Bytes) → IsHashed key (hash_input key)
hash_input-IsHashed key = elim (Partition-cases key) [
  | inr e ↦ inr (whole_only key e, e)
  | inl (part, p) ↦ inl (subst (Partition key) (sym (hash_input-Partition key part p)) p)
]

made : (n : ℕ) (s : Slotter) → new_slotter n ≡ ok s → (s.count ≡ n) × (0 < n)
made n s e = elim (Bool-cases (n == 0)) [
  | inl z ↦ absurd (refused z)
  | inr pos ↦ (ap count_of (sym e) ∙ ap count_of (if_false pos), nonzero n pos)
]
  where
    count_of : Result GoError Slotter → ℕ
    count_of (ok t) = t.count
    count_of (err x) = n

    if_false : (n == 0) ≡ false → new_slotter n ≡ ok (record { count = n })
    if_false h = unfold new_slotter in rw h refl

    if_true :
        (n == 0) ≡ true
        → new_slotter n
          ≡ err (as_error (new reason_invalid_argument "slot count must be greater than zero"))
    if_true z = unfold new_slotter in rw z refl

    refused : (n == 0) ≡ true → ⊥
    refused z = ok-ne-err (new_slotter n) e (if_true z)

-- A slotter made for `n` slots answers, for every key, the CRC-32C checksum of what is hashed of the
-- key modulo `n`, which is below `n`; hashed is the partition key, and the whole key if it has none.
pub slot-IsHashed :
    (n : ℕ) (s : Slotter) (key : Bytes)
    → new_slotter n ≡ ok s
    → (span : Bytes) × IsHashed key span × (slot s key ≡ checksum span % n) × (slot s key < n)
unfolding slot
slot-IsHashed n s key e = (
  hash_input key,
  hash_input-IsHashed key,
  ap (λ m. checksum (hash_input key) % m) (made n s e).0,
  rw (← (made n s e).0) (mod-lt (checksum (hash_input key)) (rw (made n s e).0 (made n s e).1)),
)
