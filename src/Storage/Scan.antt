-- ===== src/Storage/Scan.antt =====
-- internal/storage/log_recovery.go, verifySegment: the loop over the records of a segment.
pub mod Intact
pub mod Sound
use gokvx.Prelude.{
  ℕ, zero, suc, ◌+◌, ◌==◌, if◌then◌else◌, Bool, true, false, not, List, [], ◌∷◌, length, drop,
  Option, none, some, Result, ok, err, String, ◌||◌, ◌&&◌,
}
use gokvx.Prelude.Bytes.{Bytes}
use gokvx.Prelude.Words.{add64}
use gokvx.Kverr.Error.{GoError, plain, wrapped}
use gokvx.Storage.Record.{
  Decoded, DecodeError, torn_record, bad_length, bad_checksum, decode_record, has_later_record,
}

-- Why the loop stopped before the end. `out_of_fuel` is no state of the code: the model's loop ran
-- out of rounds.
pub data Damage : Type 0 where
  bad_record : DecodeError → Damage
  out_of_sequence : ℕ → ℕ → Damage
  out_of_fuel : Damage

-- `rest` is data[offset:] where the loop stopped, and `next` the index it expected there.
pub record Scanned : Type 0 where
  pub offset : ℕ
  pub next : ℕ
  pub rest : Bytes
  pub damage : Option Damage

-- One round on a record that was decoded.
unfoldable pub scan_step : (ℕ → ℕ → Bytes → Scanned) → ℕ → ℕ → Bytes → Decoded → Scanned
scan_step more offset next buf r =
    if r.index == next then more (offset + r.size) (add64 next 1) (drop r.size buf) else record {
      offset = offset;
      next = next;
      rest = buf;
      damage = some (out_of_sequence r.index next);
    }

-- The loop of verifySegment. A record takes 16 bytes at least, so the length of the data is fuel
-- enough.
unfoldable pub scan : ℕ → ℕ → ℕ → Bytes → Scanned
unfolding scan_step
scan fuel offset next [] = record { offset = offset; next = next; rest = []; damage = none }
scan zero offset next (b ∷ bs) = record {
  offset = offset;
  next = next;
  rest = b ∷ bs;
  damage = some out_of_fuel;
}
scan (suc fuel) offset next (b ∷ bs) = elim (decode_record (b ∷ bs)) [
  | err e ↦ record { offset = offset; next = next; rest = b ∷ bs; damage = some (bad_record e) }
  | ok r ↦ scan_step (scan fuel) offset next (b ∷ bs) r
]

unfoldable pub scan_segment : ℕ → Bytes → Scanned
unfolding scan
scan_segment first content = scan (length content) 0 first content

unfoldable pub is_out_of_sequence : Damage → Bool
is_out_of_sequence (out_of_sequence i n) = true
is_out_of_sequence d = false

-- What verifySegment makes of the loop's outcome.
pub data Verdict : Type 0 where
  healthy : Verdict
  torn_tail : Damage → Verdict
  corrupted : Damage → Verdict

unfoldable pub judge : Bool → Scanned → Verdict
unfolding is_out_of_sequence
judge is_last s = elim s.damage [
  | none ↦ healthy
  | some damage ↦
      if not is_last || (is_out_of_sequence damage || has_later_record s.rest s.next)
      then corrupted damage
      else torn_tail damage
]

-- The errors behind the damage.
unfoldable pub damage_error : Damage → GoError
damage_error (bad_record torn_record) = plain "record is cut short by the end of the segment"
damage_error (bad_record bad_length) = plain "record length is out of range"
damage_error (bad_record bad_checksum) = plain "record checksum does not match"
damage_error (out_of_sequence i n) =
    wrapped "found another index" (plain "record index is out of sequence")
damage_error out_of_fuel = plain ""
