-- ===== src/Storage/Record/Codec.antt =====
-- decodeRecord and encodeRecord undo each other.
use gokvx.Prelude.{
  ℕ, ◌+◌, ◌^◌, ◌≤◌, ◌<◌, ◌≡◌, refl, ap, ◌∙◌, sym, ◌++◌, length, length-append, take, drop,
  take-append, drop-append, take-append-drop, length-take, length-drop, drop-drop, append_assoc, ok,
  arith, All, All-take, All-drop,
}
use gokvx.Prelude.Bytes.{
  Bytes, IsByte, le_bytes, le_value, length-le_bytes, le_value-le_bytes, le_bytes-le_value,
}
use gokvx.Storage.Crc.{checksum, checksum-lt}
use gokvx.Storage.Record.{
  Decoded, max_command_size, max_record_body_size, record_body, encode_record, decode_body,
  decode_record,
}

pub length-record_body : (i : ℕ) (c : Bytes) → length (record_body i c) ≡ 8 + length c
unfolding record_body
length-record_body i c = rw length-append (omega (arith, length-le_bytes 8 i))

pub length-encode_record : (i : ℕ) (c : Bytes) → length (encode_record i c) ≡ 16 + length c
unfolding encode_record
length-encode_record i c = rw length-append (
    rw length-append (
      omega (
        arith,
        length-le_bytes 4 (length (record_body i c)),
        length-le_bytes 4 (checksum (record_body i c)),
        length-record_body i c,
      )))

-- A buffer whose header and size pass the tests is decided by its body.
pub decode_record-body :
    (buf : Bytes) (n : ℕ)
    → le_value (take 4 buf) ≡ n
    → 8 ≤ n
    → n ≤ max_record_body_size
    → 8 + n ≤ length buf
    → decode_record buf ≡ decode_body (8 + n) (le_value (take 4 (drop 4 buf))) (take n (drop 8 buf))
unfolding decode_record
decode_record-body buf n e lo hi fits = rw e (ground arith)

module _ (i : ℕ) (c rest : Bytes) where
  -- The header and the body of an encoded record, with what follows it.
  layout :
      encode_record i c ++ rest
      ≡ le_bytes 4 (length (record_body i c))
        ++ (le_bytes 4 (checksum (record_body i c)) ++ (record_body i c ++ rest))
  unfolding encode_record
  layout = simp append_assoc

  pub length_at : take 4 (encode_record i c ++ rest) ≡ le_bytes 4 (length (record_body i c))
  length_at = rw layout (take-append 4 _ _ (sym (length-le_bytes 4 _)))

  after_length :
      drop 4 (encode_record i c ++ rest)
      ≡ le_bytes 4 (checksum (record_body i c)) ++ (record_body i c ++ rest)
  after_length = rw layout (drop-append 4 _ _ (sym (length-le_bytes 4 _)))

  sum_at : take 4 (drop 4 (encode_record i c ++ rest)) ≡ le_bytes 4 (checksum (record_body i c))
  sum_at = rw after_length (take-append 4 _ _ (sym (length-le_bytes 4 _)))

  after_sum : drop 8 (encode_record i c ++ rest) ≡ record_body i c ++ rest
  after_sum =
      ap (drop 8) (
        layout
        ∙ sym (
            append_assoc (le_bytes 4 (length (record_body i c)))
              (le_bytes 4 (checksum (record_body i c))) (record_body i c ++ rest)))
      ∙ drop-append 8
          (le_bytes 4 (length (record_body i c)) ++ le_bytes 4 (checksum (record_body i c))) _
          (rw length-append (
            omega (
              arith,
              length-le_bytes 4 (length (record_body i c)),
              length-le_bytes 4 (checksum (record_body i c)),
            )))

  body_at : take (8 + length c) (drop 8 (encode_record i c ++ rest)) ≡ record_body i c
  body_at = rw after_sum (take-append _ _ _ (sym (length-record_body i c)))

-- The body of a record under its own checksum.
decode_body-record_body :
    (i : ℕ) (c : Bytes) (size : ℕ)
    → i < 2 ^ 64
    → decode_body size (checksum (record_body i c)) (record_body i c)
      ≡ ok (record { index = i; command = c; size = size })
unfolding decode_body record_body
decode_body-record_body i c size hi = ground (arith, index_back, command_back)
  where
    index_back : le_value (take 8 (record_body i c)) ≡ i
    index_back =
        ap le_value (take-append 8 _ _ (sym (length-le_bytes 8 i)))
        ∙ le_value-le_bytes 8 i (omega arith)

    command_back : drop 8 (record_body i c) ≡ c
    command_back = drop-append 8 _ _ (sym (length-le_bytes 8 i))

-- A record that was encoded, of a 64-bit index and a command within the limit, is decoded to its
-- index, its command and its size, whatever follows it.
pub decode-encode :
    (i : ℕ) (c rest : Bytes)
    → i < 2 ^ 64
    → length c ≤ max_command_size
    → decode_record (encode_record i c ++ rest)
      ≡ ok (record { index = i; command = c; size = 16 + length c })
decode-encode i c rest hi hc =
    decode_record-body (encode_record i c ++ rest) (8 + length c) size_back (omega arith)
      (omega arith) (rw length-append (omega (arith, length-encode_record i c)))
    ∙ rw (sum_at i c rest, body_at i c rest, le_value-le_bytes 4 _ (checksum-lt (record_body i c)))
        (decode_body-record_body i c (8 + (8 + length c)) hi
          ∙ ap (λ n. ok (record { index = i; command = c; size = n })) (omega arith))
  where
    size_back : le_value (take 4 (encode_record i c ++ rest)) ≡ 8 + length c
    size_back =
        ap le_value (length_at i c rest)
        ∙ le_value-le_bytes 4 _ (omega (arith, length-record_body i c))
        ∙ length-record_body i c

-- What the decoder read off a buffer that it accepted.
pub record Accepted (buf : Bytes) (r : Decoded) : Type 0 where
  pub size_eq : r.size ≡ 8 + le_value (take 4 buf)
  pub size_min : 16 ≤ r.size
  pub size_max : r.size ≤ 8 + max_record_body_size
  pub fits : r.size ≤ length buf
  pub sum_eq : checksum (take (le_value (take 4 buf)) (drop 8 buf)) ≡ le_value (take 4 (drop 4 buf))
  pub index_eq : r.index ≡ le_value (take 8 (take (le_value (take 4 buf)) (drop 8 buf)))
  pub command_eq : r.command ≡ drop 8 (take (le_value (take 4 buf)) (drop 8 buf))

pub decode_record-Accepted : (buf : Bytes) (r : Decoded) → decode_record buf ≡ ok r → Accepted buf r
unfolding decode_record
decode_record-Accepted buf r h = record {
  size_eq = ground arith;
  size_min = ground arith;
  size_max = ground arith;
  fits = ground arith;
  sum_eq = ground arith;
  index_eq = ground arith;
  command_eq = ground arith;
}

-- A buffer in four pieces: length, checksum, body, and what follows.
pieces :
    (buf : Bytes) (n : ℕ)
    → take 4 buf ++ (take 4 (drop 4 buf) ++ (take n (drop 8 buf) ++ drop (8 + n) buf)) ≡ buf
pieces buf n =
    simp (← drop-drop n 8 buf, take-append-drop n (drop 8 buf))
      (simp (← drop-drop 4 4 buf, take-append-drop 4 (drop 4 buf)) (take-append-drop 4 buf))

-- A word read off the front of bytes and written back.
word_back :
    (n : ℕ) (xs : Bytes)
    → n ≤ length xs
    → All IsByte xs
    → le_bytes n (le_value (take n xs)) ≡ take n xs
word_back n xs h bytes =
    le_bytes-le_value n (take n xs) (length-take n xs h) (All-take IsByte n xs bytes)

module _ (buf : Bytes) (r : Decoded) (bytes : All IsByte buf) (a : Accepted buf r) where
  body_of : Bytes
  body_of = take (le_value (take 4 buf)) (drop 8 buf)

  length-body_of : length body_of ≡ le_value (take 4 buf)
  unfolding body_of
  length-body_of = length-take _ (drop 8 buf) (omega (arith, length-drop 8 buf, a.size_eq, a.fits))

  sum_body_of : checksum body_of ≡ le_value (take 4 (drop 4 buf))
  unfolding body_of
  sum_body_of = a.sum_eq

  record_body_back : record_body r.index r.command ≡ body_of
  unfolding record_body body_of
  record_body_back =
      rw (a.index_eq, a.command_eq)
        (rw
          (word_back 8 (take (le_value (take 4 buf)) (drop 8 buf))
            (omega (arith, length-body_of, a.size_eq, a.size_min))
            (All-take IsByte _ (drop 8 buf) (All-drop IsByte 8 buf bytes)))
          (take-append-drop 8 _))

  encode_back :
      encode_record r.index r.command
      ≡ take 4 buf ++ (take 4 (drop 4 buf) ++ take (le_value (take 4 buf)) (drop 8 buf))
  unfolding encode_record
  encode_back = rw record_body_back (
      rw (length-body_of, sum_body_of)
        (rw
          (
            word_back 4 buf (omega (arith, a.size_min, a.fits)) bytes,
            word_back 4 (drop 4 buf) (omega (arith, length-drop 4 buf, a.size_min, a.fits))
                (All-drop IsByte 4 buf bytes),
          )
          (unfold body_of in refl)))

-- Bytes that the decoder accepts are what encodeRecord writes for their index and command,
-- followed by what the size leaves: a record has one encoding.
pub encode-decode :
    (buf : Bytes) (r : Decoded)
    → All IsByte buf
    → decode_record buf ≡ ok r
    → buf ≡ encode_record r.index r.command ++ drop r.size buf
encode-decode buf r bytes h =
    let a = decode_record-Accepted buf r h in
    sym (
      rw (encode_back buf r bytes a, a.size_eq, append_assoc, append_assoc)
        (pieces buf (le_value (take 4 buf))))
