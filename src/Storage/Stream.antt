-- ===== src/Storage/Stream.antt =====
-- What the bytes of a segment stand for: the records of consecutive commands, one after the other.
use gokvx.Prelude.{
  ℕ, suc, ◌+◌, ◌≤◌, ◌<◌, ◌≡◌, ap, ◌∙◌, sym, List, [], ◌∷◌, ◌++◌, length, length-append, take,
  append_assoc, append-nil, ◌⊎◌, arith,
}
use gokvx.Prelude.Bytes.{Bytes}
use gokvx.Storage.Record.{encode_record, max_command_size}
use gokvx.Storage.Record.Codec.{length-encode_record}

abbrev pub Commands : Type 0
Commands = List Bytes

-- A command that a record can hold.
abbrev pub Fits : Bytes → Type 0
Fits c = length c ≤ max_command_size

unfoldable pub encode_all : ℕ → Commands → Bytes
encode_all i [] = []
encode_all i (c ∷ cs) = encode_record i c ++ encode_all (suc i) cs

pub encode_all-append :
    (i : ℕ) (cs ds : Commands)
    → encode_all i (cs ++ ds) ≡ encode_all i cs ++ encode_all (i + length cs) ds
unfolding encode_all
encode_all-append i [] ds = ap (λ k. encode_all k ds) (omega arith)
encode_all-append i (c ∷ cs) ds =
    ap (λ t. encode_record i c ++ t)
      (encode_all-append (suc i) cs ds
        ∙ ap (λ k. encode_all (suc i) cs ++ encode_all k ds) (omega arith))
    ∙ sym (
        append_assoc (encode_record i c) (encode_all (suc i) cs)
          (encode_all (i + suc (length cs)) ds))

pub encode_all_one : (i : ℕ) (c : Bytes) → encode_all i (c ∷ []) ≡ encode_record i c
unfolding encode_all
encode_all_one i c = append-nil (encode_record i c)

-- A record takes 16 bytes and its command.
pub length-encode_all_ge : (i : ℕ) (cs : Commands) → length cs ≤ length (encode_all i cs)
unfolding encode_all
length-encode_all_ge i [] = omega arith
length-encode_all_ge i (c ∷ cs) =
    rw length-append (omega (arith, length-encode_record i c, length-encode_all_ge (suc i) cs))

-- A cut through a run of records: whole records, and less than one more.
pub record Cut (i : ℕ) (cs : Commands) (n : ℕ) : Type 0 where
  pub whole : Commands
  pub left : Commands
  pub part : Bytes
  pub all_eq : cs ≡ whole ++ left
  pub taken : take n (encode_all i cs) ≡ encode_all i whole ++ part
  pub part_of :
      (part ≡ [])
      ⊎ ((c : Bytes) × (m : ℕ) × Fits c
          × (m < length (encode_record (i + length whole) c))
          × (part ≡ take m (encode_record (i + length whole) c)))
  pub keeps : (k : ℕ) → length (encode_all i (take k cs)) ≤ n → k ≤ length cs → k ≤ length whole
