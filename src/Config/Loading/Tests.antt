-- ===== src/Config/Loading/Tests.antt =====
-- internal/config/load.go: the theorems at concrete inputs.
use text.Mathlib.Text.{◌==◌}
use gokvx.Prelude.{
  All, String, true, false, if◌then◌else◌, List, [], ◌∷◌, ◌++◌, Option, none, some, Result, ok, ◌≡◌,
  refl, ap, sym,
}
use gokvx.Kverr.Error.{GoError}
use gokvx.Config.Checks.{Texts, err_of}
use gokvx.Config.Loading.{
  Value, scalar, Field, Strings, Koanf, Options, field_named, is_key, items, set_key, each,
  load_default, load_file_key, load_file, load_named, load_env_entry, load_flag, decoded, finish,
  load,
}
use gokvx.Config.Loading.Writes.{latest, default_writes, file_writes, env_writes, key_writes}
use gokvx.Config.Loading.Accepted.{IsKnownFile, IsKnownVariable, load-Known}
use gokvx.Config.Loading.Precedence.{IsStore, load-latest}

-- A map, whose decoder looks at one key.
abbrev koanf : Koanf (Option Value)
koanf = record {
  Store = String → Option Value;
  empty_store = λ j. none;
  set = λ key v s. ok (λ j. if key == j then some v else s j);
  get = λ j s. s j;
  unmarshal = λ s. ok (s "fsync");
}

abbrev texts : Texts
texts = record {
  split_host_port = λ a. none;
  parse_port = λ p. none;
  parse_url = λ u. none;
  parse_ip = λ h. none;
  trim_space = λ s. s;
  cut = λ s sep. some ("GOKVX_fsync", "os");
  quote = λ s. s;
  less = λ a b. false;
}

abbrev strings : Strings
strings = record {
  to_upper = λ s. s;
  replace_all = λ s a b. s;
  split = λ s sep. s ∷ [];
  join = λ ss sep. "";
  has_prefix = λ s p. true;
  is_service_link = λ s. false;
}

abbrev fsync : Field
fsync = record { key = "fsync"; is_list = false }

abbrev fields : List Field
fields = fsync ∷ record { key = "engine"; is_list = false } ∷ []

-- The default, the file and the environment each set the key.
abbrev defaults : List (Field × Value)
defaults = (fsync, scalar "always") ∷ []

abbrev options : Options
options = record {
  file = some (ok (("fsync", scalar "interval") ∷ []));
  environ = "GOKVX_fsync=os" ∷ [];
  flags = [];
}

koanf-IsStore : IsStore koanf texts strings fields
koanf-IsStore = record {
  get_empty = λ j h. refl;
  get_set =
      λ key j v s t h i q. ap (λ f. f j) (sym (inside (λ j. if key == j then some v else s j) t q));
}
  where
    inside :
        (s t : String → Option Value)
        → ◌≡◌ {A = Result GoError (String → Option Value)} (ok s) (ok t)
        → s ≡ t
    inside s t q = cc

fsync-is_key : is_key fields "fsync" ≡ true
unfolding is_key field_named
fsync-is_key = refl

loaded : load koanf texts strings fields defaults options ≡ ok (some (scalar "os"))
unfolding load each load_default load_file load_file_key load_env_entry load_named load_flag finish
    decoded set_key is_key field_named items err_of
loaded = refl

load-latest_example :
    (s : String → Option Value) × (koanf.unmarshal s ≡ ok (some (scalar "os")))
    × All
        (λ f.
          koanf.get f.key s
          ≡ latest f.key
              (default_writes defaults
                ++ (file_writes fields options.file
                    ++ (env_writes texts strings fields options.environ
                        ++ key_writes fields options.flags)))
              none)
        fields
load-latest_example =
    load-latest koanf texts strings fields koanf-IsStore defaults options (some (scalar "os"))
      (fsync-is_key, tt) loaded

load-Known_example :
    IsKnownFile strings fields options.file
    × All (IsKnownVariable texts strings fields) options.environ
load-Known_example =
    load-Known koanf texts strings fields defaults options (some (scalar "os")) loaded
