-- ===== src/Shard.antt =====
-- internal/shard/slot.go: the slot of a key.
pub mod Braces
mod Tests
use gokvx.Prelude.{
  ℕ, suc, ◌+◌, ◌-◌, ◌%◌, ◌==◌, if◌then◌else◌, List, [], ◌∷◌, take, drop, Option, none, some, Result,
  ok, err,
}
use gokvx.Prelude.Bytes.{Bytes}
use gokvx.Kverr.Error.{GoError, as_error, new}
use gokvx.Kverr.Reason.{reason_invalid_argument}
use gokvx.Storage.Crc.{checksum}

abbrev pub default_slot_count : ℕ
default_slot_count = 16384

-- `count` is a uint32.
pub record Slotter : Type 0 where
  pub count : ℕ

unfoldable pub new_slotter : ℕ → Result GoError Slotter
new_slotter slot_count =
    if slot_count == 0
    then err (as_error (new reason_invalid_argument "slot count must be greater than zero"))
    else ok (record { count = slot_count })

-- bytes.IndexByte; none stands for -1.
unfoldable pub index_byte : Bytes → ℕ → Option ℕ
index_byte [] c = none
index_byte (b ∷ bs) c =
    let rest = index_byte bs c in
    if b == c then some 0 else elim rest [ none ↦ none | some i ↦ some (suc i) ]

-- HashInput, once both braces are looked for: `rest` is what follows the first '{', and `closing`
-- the place of the first '}' in it.
unfoldable pub between : Bytes → Bytes → Option ℕ → Bytes
between key rest none = key
between key rest (some size) = if size == 0 then key else take size rest

unfoldable pub hash_input : Bytes → Bytes
unfolding index_byte between
hash_input key = elim (index_byte key b'{') [
  | none ↦ key
  | some start ↦ between key (drop (start + 1) key) (index_byte (drop (start + 1) key) b'}')
]

unfoldable pub slot : Slotter → Bytes → ℕ
unfolding hash_input checksum
slot s key = checksum (hash_input key) % s.count
