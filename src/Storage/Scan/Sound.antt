-- ===== src/Storage/Scan/Sound.antt =====
-- The loop of verifySegment on any bytes: what it passes over are encoded records.
use gokvx.Prelude.{
  ℕ, zero, suc, ◌+◌, ◌≤◌, ◌<◌, ◌≡◌, ◌≢◌, refl, ap, ◌∙◌, sym, [], ◌∷◌, ◌++◌, length, length-append,
  drop, length-drop, append_assoc, arith, All, All-drop, none, some, ok, Result-cases, inl, inr,
  Bool-cases, ◌==◌, ==_iff,
}
use gokvx.Prelude.Bytes.{Bytes, IsByte}
use gokvx.Prelude.Words.{u64_mod, add64_fits}
use gokvx.Storage.Record.{Decoded, decode_record, encode_record}
use gokvx.Storage.Record.Codec.{decode_record-Accepted, encode-decode}
use gokvx.Storage.Scan.{Scanned, out_of_fuel, scan, scan_step}
use gokvx.Storage.Stream.{Commands, encode_all}

plus_one : (i : ℕ) → i + 1 ≡ suc i
plus_one i = omega arith

-- What the loop has established where it stops.
pub record Passed (offset next : ℕ) (buf : Bytes) (s : Scanned) : Type 0 where
  pub commands : Commands
  pub records : buf ≡ encode_all next commands ++ s.rest
  pub count : s.next ≡ next + length commands
  pub size : s.offset ≡ offset + length (encode_all next commands)
  pub complete : s.damage ≡ none → s.rest ≡ []
  pub fueled : s.damage ≢ some out_of_fuel

Passed-none :
    (offset next : ℕ) (buf : Bytes) (s : Scanned)
    → s.rest ≡ buf
    → s.next ≡ next
    → s.offset ≡ offset
    → (s.damage ≡ none → s.rest ≡ [])
    → s.damage ≢ some out_of_fuel
    → Passed offset next buf s
unfolding encode_all
Passed-none offset next buf s a b c d e = record {
  commands = [];
  records = sym a;
  count = omega arith;
  size = omega arith;
  complete = d;
  fueled = e;
}

-- The size that the decoder answers is that of the record's encoding.
pub length-encode-decode :
    (buf : Bytes) (r : Decoded)
    → All IsByte buf
    → decode_record buf ≡ ok r
    → length (encode_record r.index r.command) ≡ r.size
length-encode-decode buf r bytes e =
    let a = decode_record-Accepted buf r e in
    omega (
      arith,
      ap length (encode-decode buf r bytes e),
      length-append (encode_record r.index r.command) (drop r.size buf),
      length-drop r.size buf,
      a.fits,
    )

Passed-one :
    (offset next : ℕ) (buf : Bytes) (r : Decoded) (s : Scanned)
    → All IsByte buf
    → decode_record buf ≡ ok r
    → r.index ≡ next
    → Passed (offset + r.size) (suc next) (drop r.size buf) s
    → Passed offset next buf s
unfolding encode_all
Passed-one offset next buf r s bytes e i p = record {
  commands = r.command ∷ p.commands;
  records = record_first ∙ sym (append_assoc (encode_record next r.command) _ s.rest);
  count = omega (arith, p.count);
  size = rw length-append (omega (arith, p.size, here));
  complete = p.complete;
  fueled = p.fueled;
}
  where
    here : length (encode_record next r.command) ≡ r.size
    here = rw (← i) (length-encode-decode buf r bytes e)

    record_first :
        buf ≡ encode_record next r.command ++ (encode_all (suc next) p.commands ++ s.rest)
    record_first = encode-decode buf r bytes e ∙ cc (i, p.records)

-- The loop of verifySegment, on bytes of any kind with as many rounds as there are bytes and indices
-- below 2^64: it never runs out of rounds, what it passed over
-- are the records of consecutive commands, and without damage nothing is left.
pub scan-Passed :
    (fuel offset next : ℕ) (buf : Bytes)
    → length buf ≤ fuel
    → next + length buf < u64_mod
    → All IsByte buf
    → Passed offset next buf (scan fuel offset next buf)
unfolding scan
scan-Passed fuel offset next [] le h bytes =
    Passed-none _ _ _ _ refl refl refl (λ _. refl) (λ p. cc)
scan-Passed zero offset next (b ∷ bs) le h bytes = absurd (omega arith)
scan-Passed (suc fuel) offset next (b ∷ bs) le h bytes =
    elim (Result-cases (decode_record (b ∷ bs))) [
      | inr (e, p) ↦ rw (p, scan) (Passed-none _ _ _ _ refl refl refl (λ q. absurd (cc)) (λ q. cc))
      | inl (r, p) ↦ elim (Bool-cases (r.index == next)) [
        | inr q ↦
            rw (p, scan, scan_step, q)
              (Passed-none _ _ _ _ refl refl refl (λ x. absurd (cc)) (λ x. cc))
        | inl q ↦
            let a = decode_record-Accepted (b ∷ bs) r p in
            rw (p, scan, scan_step, q, add64_fits next 1 (omega arith), plus_one next)
              (Passed-one offset next (b ∷ bs) r _ bytes p ((==_iff r.index next).0 q) (
                scan-Passed fuel (offset + r.size) (suc next) (drop r.size (b ∷ bs))
                  (omega (arith, length-drop r.size (b ∷ bs), a.size_min))
                  (omega (arith, length-drop r.size (b ∷ bs), a.size_min, a.fits))
                  (All-drop IsByte r.size (b ∷ bs) bytes)))
      ]
    ]
