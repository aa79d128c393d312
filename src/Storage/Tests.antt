-- ===== src/Storage/Tests.antt =====
-- Concrete records, logs and runs, and the theorems at them.
use gokvx.Prelude.{
  ◌^◌, ◌<◌, ℕ, suc, inl, List, ◌+◌, ◌≡◌, refl, true, false, [], ◌∷◌, ◌++◌, length, take, drop, none,
  some, ok, err, arith, ◌↔◌, ◌≤◌, All,
}
use gokvx.Prelude.Bytes.{Bytes, IsByte, le_bytes, le_value, bytes_eq}
use gokvx.Kverr.Error.{GoError, canceled}
use gokvx.Storage.Record.{
  record_body, decode_body, encode_record, decode_record, torn_record, has_later_record,
}
use gokvx.Storage.Record.Codec.{decode-encode, encode-decode}
use gokvx.Storage.Record.Torn.{decode-prefix}
use gokvx.Storage.Record.Later.{LaterAt, has_later_record_iff}
use gokvx.Storage.Crc.{checksum}
use gokvx.Storage.Segment.Names.{parse_segment_name-segment_name, parse_segment_name_exact}
use gokvx.Storage.Segment.{parse_segment_name, segment_name, decimal}
use gokvx.Storage.Disk.{Disk, file_of}
use gokvx.Storage.Scan.{scan}
use gokvx.Storage.Scan.Sound.{Passed, scan-Passed}
use gokvx.Storage.Stream.{encode_all}
use gokvx.Storage.Log.{Log, LogConfig, World, always, append}
use gokvx.Storage.Log.Shape.{IsLog, PartOf-nil}
use gokvx.Storage.Log.Total.{AppendTotal, append-total, append_refused}
use gokvx.Storage.Log.Runs.{Event, appends, tick, closes, run, acks, commands, numbered, run-IsLog}

abbrev hello : Bytes
hello = b'h' ∷ b'i' ∷ []

abbrev three : Bytes
three = encode_record 3 hello

-- The layout of one record.
record_bytes :
    encode_record 1 []
    ≡ 8 ∷ 0 ∷ 0 ∷ 0 ∷ take 4 (drop 4 (encode_record 1 [])) ++ (1 ∷ 0 ∷ 0 ∷ 0 ∷ 0 ∷ 0 ∷ 0 ∷ 0 ∷ [])
unfolding encode_record le_bytes record_body checksum
record_bytes = refl

decode-encode_example :
    decode_record (encode_record 3 hello ++ (7 ∷ []))
    ≡ ok (record { index = 3; command = hello; size = 16 + length hello })
decode-encode_example = decode-encode 3 hello (7 ∷ []) (omega arith) (omega arith)

decode-prefix_example : decode_record (take 17 (encode_record 3 hello)) ≡ err torn_record
unfolding encode_record record_body le_bytes
decode-prefix_example = decode-prefix 3 hello 17 (omega arith) (omega arith)

has_later_record_iff_example :
    (has_later_record (0 ∷ three) 2 ≡ true) ↔ ((p : ℕ) × LaterAt (0 ∷ three) 2 (suc p))
has_later_record_iff_example = has_later_record_iff (0 ∷ three) 2

abbrev config : LogConfig
config = record { dir_set = true; segment_bytes = 40; fsync_policy = always; fsync_interval = 0 }

abbrev fresh_log : Log
fresh_log = record {
  cfg = config;
  segments = record { first = 1; last = 0; path = segment_name 1 } ∷ [];
  active = segment_name 1;
  active_size = 0;
  last_index = 0;
  dirty = false;
  failed = none;
  closed = false;
}

-- The third call fails.
abbrev fresh_disk : Disk
fresh_disk = record {
  files = (segment_name 1, record { content = []; synced = 0; linked = true }) ∷ [];
  folders = [];
  faults = none ∷ none ∷ some 5 ∷ [];
}

abbrev fresh : World
fresh = record { log = fresh_log; disk = fresh_disk }

fresh-IsLog : IsLog fresh 1 []
unfolding file_of segment_name encode_all bytes_eq decimal
fresh-IsLog = record {
  junk = [];
  shape = record {
    sealed = [];
    batches = [];
    current = record { first = 1; last = 0; path = segment_name 1 };
    batch = [];
    segments_eq = refl;
    old = tt;
    cur = record {
      file = record { content = []; synced = 0; linked = true };
      at = refl;
      content = refl;
      linked = refl;
      count = refl;
    };
    apart = tt;
    cur_first = refl;
    commands_eq = refl;
    fits = tt;
    last_eq = refl;
    active_eq = refl;
    size_eq = λ h. refl;
    part = PartOf-nil 1;
  };
  clean = λ h. refl;
}

append-total_example : AppendTotal (append none hello fresh) fresh 1 [] hello
append-total_example = append-total hello fresh-IsLog (omega arith) (omega arith) none

append_refused_example :
    (e : GoError) × (append none hello (record fresh { log = record fresh_log { closed = true } })
      ≡ (err e, record fresh { log = record fresh_log { closed = true } }))
append_refused_example =
    append_refused (record fresh { log = record fresh_log { closed = true } }) none hello (inl refl)

abbrev schedule : List Event
schedule =
    appends none hello ∷ tick ∷ appends (some canceled) hello ∷ appends none hello ∷ closes ∷ []

run-IsLog_example :
    IsLog (run schedule fresh) 1 ([] ++ commands (acks schedule fresh))
    × (acks schedule fresh ≡ numbered (1 + 0) (commands (acks schedule fresh)))
run-IsLog_example = run-IsLog schedule fresh 1 [] fresh-IsLog (omega arith) (omega arith)

three_bytes : All IsByte three
unfolding encode_record record_body le_bytes checksum
three_bytes = (
  omega arith,
  (
    omega arith,
    (
      omega arith,
      (
        omega arith,
        (
          omega arith,
          (
            omega arith,
            (
              omega arith,
              (
                omega arith,
                (
                  omega arith,
                  (
                    omega arith,
                    (
                      omega arith,
                      (
                        omega arith,
                        (
                          omega arith,
                          (
                            omega arith,
                            (omega arith, (omega arith, (omega arith, (omega arith, tt)))),
                          ),
                        ),
                      ),
                    ),
                  ),
                ),
              ),
            ),
          ),
        ),
      ),
    ),
  ),
)

three_decoded : decode_record three ≡ ok (record { index = 3; command = hello; size = 18 })
unfolding decode_record decode_body encode_record record_body le_bytes le_value checksum
three_decoded = refl

encode-decode_example : three ≡ encode_record 3 hello ++ drop 18 three
encode-decode_example =
    encode-decode three (record { index = 3; command = hello; size = 18 }) three_bytes three_decoded

scan-Passed_example : Passed 0 3 three (scan 18 0 3 three)
scan-Passed_example =
    scan-Passed 18 0 3 three three_size (rw three_length (omega arith)) three_bytes
  where
    three_length : length three ≡ 18
    three_length = unfold encode_record record_body le_bytes in refl

    three_size : length three ≤ 18
    three_size = rw three_length (omega arith)

parse_segment_name-segment_name_example : parse_segment_name (segment_name 7) ≡ some 7
parse_segment_name-segment_name_example = parse_segment_name-segment_name 7 (omega arith)

parse_segment_name_exact_example : (segment_name 7 ≡ segment_name 7) × (7 < 2 ^ 64)
parse_segment_name_exact_example =
    parse_segment_name_exact (segment_name 7) 7 (parse_segment_name-segment_name 7 (omega arith))
