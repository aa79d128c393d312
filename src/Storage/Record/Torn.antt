-- ===== src/Storage/Record/Torn.antt =====
-- A record that a crash cut short.
use gokvx.Prelude.{
  ℕ, ◌+◌, ◌≤◌, ◌<◌, ◌≡◌, ap, ◌∙◌, sym, ltb, length, take, append-nil, take-take, [], length-take,
  err, arith, inl, inr, Bool-cases,
}
use gokvx.Prelude.Bytes.{Bytes, le_value, le_value-le_bytes}
use gokvx.Storage.Record.{
  torn_record, max_command_size, max_record_body_size, encode_record, decode_record,
}
use gokvx.Storage.Record.Codec.{length-record_body, length-encode_record, length_at}

-- Below the size that the header states, a buffer is torn.
decode_record-short :
    (buf : Bytes) (n : ℕ)
    → le_value (take 4 buf) ≡ n
    → 8 ≤ n
    → n ≤ max_record_body_size
    → length buf < 8 + n
    → decode_record buf ≡ err torn_record
unfolding decode_record
decode_record-short buf n e lo hi short = rw e (ground arith)

decode_record_tiny : (buf : Bytes) → length buf < 8 → decode_record buf ≡ err torn_record
unfolding decode_record
decode_record_tiny buf h = ground arith

-- Every proper prefix of a record whose command is within the limit decodes as a record cut short,
-- at every byte offset.
pub decode-prefix :
    (i : ℕ) (c : Bytes) (n : ℕ)
    → length c ≤ max_command_size
    → n < length (encode_record i c)
    → decode_record (take n (encode_record i c)) ≡ err torn_record
decode-prefix i c n hc hn = elim (Bool-cases (ltb n 8)) [
  | inl small ↦
      decode_record_tiny _ (rw (length-take n (encode_record i c) (omega arith)) (ground arith))
  | inr big ↦
      decode_record-short (take n (encode_record i c)) (8 + length c) (head_eq (ground arith))
        (omega arith) (omega arith)
        (rw (length-take n (encode_record i c) (omega arith))
          (omega (arith, length-encode_record i c)))
]
  where
    head_eq : 8 ≤ n → le_value (take 4 (take n (encode_record i c))) ≡ 8 + length c
    head_eq h =
        ap le_value (
          take-take 4 n (encode_record i c) (omega arith)
          ∙ ap (take 4) (sym (append-nil _))
          ∙ length_at i c [])
        ∙ le_value-le_bytes 4 _ (omega (arith, length-record_body i c))
        ∙ length-record_body i c
