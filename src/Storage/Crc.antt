-- ===== src/Storage/Crc.antt =====
-- crc32.Checksum with crc32.MakeTable(crc32.Castagnoli), as storage/record.go and shard/slot.go
-- use it: the reflected CRC-32C, a table entry for each byte.
use Prim.Native.Nat.{bit_xor}
use gokvx.Prelude.{ℕ, zero, suc, ◌/◌, ◌%◌, ◌^◌, ◌<◌, ◌==◌, if◌then◌else◌, [], ◌∷◌, ◌≡◌, refl, arith}
use gokvx.Prelude.Bytes.{Bytes}

-- One bit of a table entry: shift right, and subtract the polynomial if a one fell out.
crc_bit : ℕ → ℕ
crc_bit c = if c % 2 == 1 then bit_xor (c / 2) 0x82f6_3b78 else c / 2

crc_bits : ℕ → ℕ → ℕ
crc_bits zero c = c
crc_bits (suc n) c = crc_bits n (crc_bit c)

-- The entry of the table for a byte.
table_entry : ℕ → ℕ
unfolding crc_bit crc_bits
table_entry b = crc_bits 8 b

crc_update : ℕ → Bytes → ℕ
unfolding table_entry
crc_update crc [] = crc
crc_update crc (b ∷ bs) = crc_update (bit_xor (table_entry (bit_xor crc b % 256)) (crc / 256)) bs

-- The checksum is a uint32.
unfoldable pub checksum : Bytes → ℕ
unfolding crc_update
checksum bs = bit_xor (crc_update 0xffff_ffff bs) 0xffff_ffff % 2 ^ 32

pub checksum-lt : (bs : Bytes) → checksum bs < 2 ^ 32
unfolding checksum
checksum-lt bs = omega arith

-- The check value of CRC-32C, for the nine digits.
check_value : checksum (49 ∷ 50 ∷ 51 ∷ 52 ∷ 53 ∷ 54 ∷ 55 ∷ 56 ∷ 57 ∷ []) ≡ 0xe306_9283
unfolding checksum
check_value = refl
