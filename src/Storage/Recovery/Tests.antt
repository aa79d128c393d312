-- ===== src/Storage/Recovery/Tests.antt =====
-- Logs with a torn last record, and what opening them does.
use gokvx.Prelude.{
  none, some, ℕ, List, ◌≡◌, ◌⊎◌, refl, true, false, [], ◌∷◌, ◌++◌, take, err, arith,
}
use mathlib.Core.List.{Permᴰ}
use gokvx.Prelude.Bytes.{Bytes, le_bytes, le_value, bytes_eq}
use gokvx.Kverr.Error.{GoError, canceled}
use gokvx.Storage.Record.{
  record_body, encode_record, has_later_record, later_from, is_later, decode_record, decode_body,
}
use gokvx.Storage.Crc.{checksum}
use gokvx.Storage.Segment.{Segment, segment_name, decimal}
use gokvx.Storage.Disk.{File, Files, file_of}
use gokvx.Storage.Stream.{encode_all}
use gokvx.Storage.Log.{LogConfig, World, always, validate, problems}
use gokvx.Storage.Log.Shape.{IsLog}
use gokvx.Storage.Recovery.{recover_from, open_log}
use gokvx.Storage.Recovery.Listed.{IsDirectory}
use gokvx.Storage.Recovery.Verify.{sound_disk}
use gokvx.Storage.Recovery.Crash.{
  OnDisk, TornPart, Recovers, recover-intact, recover-torn, recover_refuses,
}
use gokvx.Storage.Recovery.Replayed.{replay_complete}
use gokvx.Storage.Log.Replay.{replay, visit_all, sound_visit}
use gokvx.Storage.Recovery.Restart.{restart}

abbrev hello : Bytes
hello = b'h' ∷ b'i' ∷ []

abbrev config : LogConfig
config = record { dir_set = true; segment_bytes = 40; fsync_policy = always; fsync_interval = 0 }

abbrev only : Segment
only = record { first = 1; last = 0; path = segment_name 1 }

-- One whole record, and `part` behind it.
abbrev file_with : Bytes → File
file_with part = record { content = encode_all 1 (hello ∷ []) ++ part; synced = 0; linked = true }

abbrev files_with : Bytes → Files
files_with part = (segment_name 1, file_with part) ∷ []

OnDisk-with : (part : Bytes) → OnDisk (files_with part) 1 [] [] only (hello ∷ []) part
unfolding file_of segment_name bytes_eq decimal
OnDisk-with part = record {
  stored = tt;
  last = record { file = file_with part; at = refl; content = refl; linked = refl };
  apart = tt;
  first_eq = refl;
  fits = (omega arith, tt);
  pos = omega arith;
  small = omega arith;
}

abbrev short_part : Bytes
short_part = take 5 (encode_record 2 hello)

short_TornPart : TornPart 2 short_part
unfolding encode_record record_body le_bytes
short_TornPart = record {
  command = hello;
  size = 5;
  fits = omega arith;
  some_of = omega arith;
  less = omega arith;
  part_eq = refl;
}

short_quiet : has_later_record short_part 2 ≡ false
unfolding has_later_record encode_record record_body le_bytes checksum later_from is_later
    decode_record decode_body
short_quiet = refl

-- A command that is itself a record, with a later index.
abbrev nested : Bytes
nested = encode_record 9 hello ++ (0 ∷ [])

abbrev nested_part : Bytes
nested_part = take 34 (encode_record 2 nested)

nested_TornPart : TornPart 2 nested_part
unfolding encode_record record_body le_bytes
nested_TornPart = record {
  command = nested;
  size = 34;
  fits = omega arith;
  some_of = omega arith;
  less = omega arith;
  part_eq = refl;
}

nested_found : has_later_record nested_part 2 ≡ true
unfolding has_later_record encode_record record_body le_bytes checksum later_from is_later
    decode_record decode_body le_value
nested_found = refl

recover-intact_example :
    Recovers
      (recover_from config ([] ++ only ∷ []) (sound_disk (files_with []) []))
      1
      ([] ++ (hello ∷ []))
    × ((recover_from config ([] ++ only ∷ []) (sound_disk (files_with []) [])).1
        ≡ sound_disk (files_with []) [])
recover-intact_example = recover-intact config [] (OnDisk-with [])

recover-torn_example :
    Recovers
      (recover_from config ([] ++ only ∷ []) (sound_disk (files_with short_part) []))
      1
      ([] ++ (hello ∷ []))
recover-torn_example = recover-torn config [] (OnDisk-with short_part) short_TornPart short_quiet

recover_refuses_example :
    (e : GoError) × (recover_from config ([] ++ only ∷ []) (sound_disk (files_with nested_part) [])
      ≡ (err e, sound_disk (files_with nested_part) []))
recover_refuses_example =
    recover_refuses config [] (OnDisk-with nested_part) nested_TornPart nested_found

abbrev torn_world : World
torn_world = record {
  log = record {
    cfg = config;
    segments = record { first = 1; last = 1; path = segment_name 1 } ∷ [];
    active = segment_name 1;
    active_size = 0;
    last_index = 1;
    dirty = true;
    failed = some canceled;
    closed = false;
  };
  disk = record { files = files_with short_part; folders = []; faults = [] };
}

torn_world_holds : IsLog torn_world 1 (hello ∷ [])
unfolding file_of segment_name bytes_eq decimal
torn_world_holds = record {
  junk = short_part;
  shape = record {
    sealed = [];
    batches = [];
    current = record { first = 1; last = 1; path = segment_name 1 };
    batch = hello ∷ [];
    segments_eq = refl;
    old = tt;
    cur = record {
      file = file_with short_part;
      at = refl;
      content = refl;
      linked = refl;
      count = refl;
    };
    apart = tt;
    cur_first = refl;
    commands_eq = refl;
    fits = (omega arith, tt);
    last_eq = refl;
    active_eq = refl;
    size_eq = λ h. absurd (cc);
    part = record { command = hello; size = 5; fits = omega arith; part = refl };
  };
  clean = λ h. absurd (cc);
}

torn_world-IsDirectory : IsDirectory torn_world
torn_world-IsDirectory = record {
  indices = 1 ∷ [];
  names = refl;
  any_order = Permᴰ.cons refl Permᴰ.nil;
  paths = (refl, tt);
}

config_valid : validate config ≡ none
unfolding validate problems
config_valid = refl

restart_example :
    Recovers (open_log none config (sound_disk torn_world.disk.files [])) 1 (hello ∷ [])
    ⊎ ((c : Bytes) × Recovers
          (open_log none config (sound_disk torn_world.disk.files []))
          1
          ((hello ∷ []) ++ c ∷ []))
unfolding torn_world_holds encode_record
restart_example =
    restart config torn_world_holds torn_world-IsDirectory config_valid (omega arith) (omega arith)
      short_quiet

abbrev collect : ℕ → Bytes → List (ℕ × Bytes) → List (ℕ × Bytes)
collect i c seen = (i, c) ∷ seen

replay_complete_example :
    replay
      (λ i. none)
      1
      (sound_visit collect)
      torn_world.log
      (sound_disk torn_world.disk.files [])
      []
    ≡ ((none, visit_all 1 collect 1 (hello ∷ []) []), sound_disk torn_world.disk.files [])
replay_complete_example =
    replay_complete torn_world_holds (λ i. none) (λ i. refl) 1 collect [] [] (omega arith)
