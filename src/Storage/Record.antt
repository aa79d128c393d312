-- ===== src/Storage/Record.antt =====
-- internal/storage/record.go: the layout of a command log record, and the search for an intact
-- record behind damage. A byte slice is a list of numbers below 256; `buf[a:b]` is `take` and `drop`.
pub mod Codec
pub mod Torn
pub mod Later
use gokvx.Prelude.{
  ℕ, ◌+◌, ◌-◌, ◌*◌, ◌%◌, ◌^◌, ltb, leb, ◌==◌, if◌then◌else◌, not, ◌&&◌, ◌||◌, Bool, true, false, [],
  ◌∷◌, ◌++◌, length, take, drop, Result, ok, err,
}
use gokvx.Prelude.Bytes.{Bytes, le_bytes, le_value}
use gokvx.Storage.Crc.{checksum}

abbrev pub record_header_size : ℕ
record_header_size = 8

abbrev pub record_index_size : ℕ
record_index_size = 8

-- 64 << 20
abbrev pub max_record_body_size : ℕ
max_record_body_size = 64 * 2 ^ 20

abbrev pub max_command_size : ℕ
max_command_size = max_record_body_size - record_index_size

pub data DecodeError : Type 0 where
  torn_record bad_length bad_checksum : DecodeError

-- What decodeRecord returns beside its error.
pub record Decoded : Type 0 where
  pub index : ℕ
  pub command : Bytes
  pub size : ℕ

-- buf[recordHeaderSize:] of encodeRecord.
unfoldable pub record_body : ℕ → Bytes → Bytes
record_body index command = le_bytes 8 index ++ command

-- `uint32(len(body))` is the length modulo 2^32, which `le_bytes 4` takes.
unfoldable pub encode_record : ℕ → Bytes → Bytes
encode_record index command =
    le_bytes 4 (length (record_body index command))
    ++ (le_bytes 4 (checksum (record_body index command)) ++ record_body index command)

-- The tests on `body`, which is buf[recordHeaderSize:size].
unfoldable pub decode_body : ℕ → ℕ → Bytes → Result DecodeError Decoded
decode_body size sum body =
    if not (checksum body == sum)
    then err bad_checksum
    else ok (record {
      index = le_value (take record_index_size body);
      command = drop record_index_size body;
      size = size;
    })

unfoldable pub decode_record : Bytes → Result DecodeError Decoded
unfolding decode_body
decode_record buf =
    if ltb (length buf) record_header_size
    then err torn_record
    else let len = le_value (take 4 buf) in
      if ltb len record_index_size || ltb max_record_body_size len
      then err bad_length
      else if ltb (length buf) (record_header_size + len)
      then err torn_record
      else decode_body (record_header_size + len) (le_value (take 4 (drop 4 buf)))
          (take len (drop record_header_size buf))

-- Whether the bytes at `suffix` hold a record that hasLaterRecord accepts. `total` is len(tail).
unfoldable pub is_later : ℕ → ℕ → Bytes → Bool
is_later damaged total suffix =
    let index = le_value (take 8 (drop record_header_size suffix)) in
    if leb index damaged || ltb total (index - damaged)
    then false
    else elim (decode_record suffix) [ ok r ↦ r.index == index | err e ↦ false ]

-- The loop of hasLaterRecord; `suffix` is tail[p:].
unfoldable pub later_from : ℕ → ℕ → Bytes → Bool
later_from damaged total [] = false
later_from damaged total (b ∷ bs) =
    if ltb (length (b ∷ bs)) (record_header_size + record_index_size)
    then false
    else (is_later damaged total (b ∷ bs) || later_from damaged total bs)

-- The search starts at offset 1.
unfoldable pub has_later_record : Bytes → ℕ → Bool
has_later_record tail damaged = later_from damaged (length tail) (drop 1 tail)
