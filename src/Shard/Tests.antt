-- ===== src/Shard/Tests.antt =====
-- Keys and their slots: internal/shard/slot_test.go, and the theorems at such keys.
use gokvx.Prelude.{[], ◌∷◌, ◌≡◌, ◌<◌, ◌%◌, refl, ok, arith}
use gokvx.Prelude.Bytes.{Bytes}
use gokvx.Storage.Crc.{checksum}
use gokvx.Shard.{Slotter, default_slot_count, new_slotter, hash_input, slot}
use gokvx.Shard.Braces.{Partition, IsHashed, hash_input-Partition, slot-IsHashed}

-- "{t}a" and "b{t}".
abbrev first_key : Bytes
first_key = b'{' ∷ b't' ∷ b'}' ∷ b'a' ∷ []

abbrev second_key : Bytes
second_key = b'b' ∷ b'{' ∷ b't' ∷ b'}' ∷ []

abbrev tenant : Bytes
tenant = b't' ∷ []

abbrev slotter : Slotter
slotter = record { count = default_slot_count }

empty_braces : hash_input (b'{' ∷ b'}' ∷ b'x' ∷ []) ≡ b'{' ∷ b'}' ∷ b'x' ∷ []
unfolding hash_input
empty_braces = refl

nested_braces : hash_input (b'{' ∷ b'{' ∷ b'a' ∷ b'}' ∷ b'}' ∷ []) ≡ b'{' ∷ b'a' ∷ []
unfolding hash_input
nested_braces = refl

first-Partition : Partition first_key tenant
first-Partition = record {
  before = [];
  after = b'a' ∷ [];
  whole = refl;
  before_free = tt;
  part_free = ((λ e. absurd (omega (arith, e))), tt);
  some_part = omega arith;
}

made_slotter : new_slotter default_slot_count ≡ ok slotter
unfolding new_slotter
made_slotter = refl

hash_input-Partition_example : hash_input first_key ≡ tenant
hash_input-Partition_example = hash_input-Partition first_key tenant first-Partition

slot-IsHashed_example :
    (span : Bytes) × IsHashed second_key span
    × (slot slotter second_key ≡ checksum span % default_slot_count)
    × (slot slotter second_key < default_slot_count)
slot-IsHashed_example = slot-IsHashed default_slot_count slotter second_key made_slotter
