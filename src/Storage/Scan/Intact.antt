-- ===== src/Storage/Scan/Intact.antt =====
-- The loop of verifySegment over what Append wrote, whole or cut short.
use gokvx.Prelude.{
  ℕ, zero, suc, ◌+◌, ◌-◌, ◌≤◌, ◌<◌, ◌≡◌, refl, ap, ◌∙◌, sym, [], ◌∷◌, ◌++◌, length, length-append,
  take, drop, drop-append, append_assoc, append-nil, length-take, arith, All, none, some, ok, err,
  ◌≢◌,
}
use native.Mathlib.Nat.{add-zero}
use gokvx.Prelude.Bytes.{Bytes}
use gokvx.Prelude.Words.{u64_mod, add64, add64_fits}
use gokvx.Storage.Record.{Decoded, DecodeError, torn_record, decode_record, encode_record}
use gokvx.Storage.Record.Codec.{decode-encode, length-encode_record}
use gokvx.Storage.Record.Torn.{decode-prefix}
use gokvx.Storage.Scan.{bad_record, scan}
use gokvx.Storage.Stream.{Commands, Fits, encode_all}

-- One round of the loop on a record that decodes with the expected index.
scan_round :
    (fuel offset next : ℕ) (buf : Bytes) (r : Decoded)
    → decode_record buf ≡ ok r
    → buf ≢ []
    → r.index ≡ next
    → scan (suc fuel) offset next buf ≡ scan fuel (offset + r.size) (add64 next 1) (drop r.size buf)
unfolding scan
scan_round fuel offset next [] r e h p = absurd (h refl)
scan_round fuel offset next (b ∷ bs) r e h p = ground (arith, e)

plus_one : (i : ℕ) → i + 1 ≡ suc i
plus_one i = omega arith

scan_record :
    (fuel offset i : ℕ) (c rest : Bytes)
    → i + 1 < u64_mod
    → Fits c
    → scan (suc fuel) offset i (encode_record i c ++ rest)
      ≡ scan fuel (offset + length (encode_record i c)) (suc i) rest
scan_record fuel offset i c rest hi hc =
    scan_round fuel offset i (encode_record i c ++ rest) r (decode-encode i c rest (omega arith) hc)
      solid refl
    ∙ rw (
      next_eq,
      drop-append (16 + length c) (encode_record i c) rest (sym (length-encode_record i c)),
      length-encode_record,
    )
  where
    next_eq : add64 i 1 ≡ suc i
    next_eq = add64_fits i 1 hi ∙ plus_one i

    r : Decoded
    r = record { index = i; command = c; size = 16 + length c }

    solid : encode_record i c ++ rest ≢ []
    solid p = absurd (
        omega
          (arith, ap length p, length-append (encode_record i c) rest, length-encode_record i c))

-- The loop passes over encoded records, whatever follows them.
pub scan-encode_all :
    (cs : Commands) (fuel f offset i : ℕ) (tail : Bytes)
    → fuel ≡ length cs + f
    → i + length cs < u64_mod
    → All Fits cs
    → scan fuel offset i (encode_all i cs ++ tail)
      ≡ scan f (offset + length (encode_all i cs)) (i + length cs) tail
unfolding encode_all
scan-encode_all [] fuel f offset i tail e h fits = cc (add-zero offset, add-zero i, e')
  where
    e' : fuel ≡ f
    e' = omega arith
scan-encode_all (c ∷ cs) zero f offset i tail e h fits = absurd (omega arith)
scan-encode_all (c ∷ cs) (suc fuel) f offset i tail e h fits =
    rw (append_assoc (encode_record i c) (encode_all (suc i) cs) tail) (
      scan_record fuel offset i c (encode_all (suc i) cs ++ tail) (omega arith) fits.0
      ∙ scan-encode_all cs fuel f (offset + length (encode_record i c)) (suc i) tail (omega arith)
          (omega arith) fits.1
      ∙ cc (offset_eq, index_eq))
  where
    offset_eq :
        offset + length (encode_record i c) + length (encode_all (suc i) cs)
        ≡ offset + length (encode_record i c ++ encode_all (suc i) cs)
    offset_eq = rw length-append (omega arith)

    index_eq : suc i + length cs ≡ i + suc (length cs)
    index_eq = omega arith

-- Encoded records are healthy: the loop ends behind the last one.
pub scan_healthy :
    (cs : Commands) (fuel offset i : ℕ)
    → length cs ≤ fuel
    → i + length cs < u64_mod
    → All Fits cs
    → scan fuel offset i (encode_all i cs) ≡ record {
      offset = offset + length (encode_all i cs);
      next = i + length cs;
      rest = [];
      damage = none;
    }
unfolding scan
scan_healthy cs fuel offset i le h fits =
    ap (scan fuel offset i) (sym (append-nil (encode_all i cs)))
    ∙ scan-encode_all cs fuel (fuel - length cs) offset i [] (omega arith) h fits

stops :
    (fuel offset i : ℕ) (buf : Bytes) {e : DecodeError}
    → 0 < fuel
    → buf ≢ []
    → decode_record buf ≡ err e
    → scan fuel offset i buf
      ≡ record { offset = offset; next = i; rest = buf; damage = some (bad_record e) }
unfolding scan
stops fuel offset i [] hf p h = absurd (p refl)
stops zero offset i (b ∷ bs) hf p h = absurd (omega arith)
stops (suc fuel) offset i (b ∷ bs) hf p h = ground (arith, h)

-- A record that a crash cut short stops the loop where it begins.
scan_cut :
    (fuel offset i m : ℕ) (c : Bytes)
    → 0 < fuel
    → 0 < m
    → m < length (encode_record i c)
    → Fits c
    → scan fuel offset i (take m (encode_record i c)) ≡ record {
      offset = offset;
      next = i;
      rest = take m (encode_record i c);
      damage = some (bad_record torn_record);
    }
scan_cut fuel offset i m c hf hm short fits =
    stops fuel offset i _ hf solid (decode-prefix i c m fits short)
  where
    solid : take m (encode_record i c) ≢ []
    solid p = absurd (omega (arith, ap length p, length-take m (encode_record i c) (omega arith)))

-- Whole records and a part of one more: the loop stops at the part.
pub scan_torn :
    (cs : Commands) (fuel offset i m : ℕ) (c : Bytes)
    → length cs < fuel
    → i + length cs < u64_mod
    → All Fits cs
    → Fits c
    → 0 < m
    → m < length (encode_record (i + length cs) c)
    → scan fuel offset i (encode_all i cs ++ take m (encode_record (i + length cs) c)) ≡ record {
      offset = offset + length (encode_all i cs);
      next = i + length cs;
      rest = take m (encode_record (i + length cs) c);
      damage = some (bad_record torn_record);
    }
scan_torn cs fuel offset i m c le h fits hc hm short =
    scan-encode_all cs fuel (fuel - length cs) offset i _ (omega arith) h fits
    ∙ scan_cut (fuel - length cs) _ (i + length cs) m c (omega arith) hm short hc
