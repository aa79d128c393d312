-- ===== src/Config/Loading.antt =====
-- internal/config/load.go and keys.go: the sources of a configuration on top of the defaults. The
-- map that koanf keeps, its decoder, the parsed file and the flags that were set are parameters, and
-- so are functions of strings and regexp. The list of keys, which the code collects by reflection
-- from the type Config, is an argument.
pub mod Writes
pub mod Precedence
pub mod Accepted
mod Tests
use text.Mathlib.Text.{◌==◌}
use gokvx.Prelude.{
  Bool, true, false, not, ◌||◌, ◌&&◌, if◌then◌else◌, String, List, [], ◌∷◌, ◌++◌, Option, none,
  some, Result, ok, err,
}
use gokvx.Kverr.Error.{GoError, as_error, wrap}
use gokvx.Kverr.Reason.{reason_internal, reason_invalid_argument}
use gokvx.Config.Checks.{Texts, Violations, joined_text, add, err_of}

-- A value of a source; `other` is one that the model does not look into.
pub data Value : Type 0 where
  null : Value
  empty_mapping : Value
  scalar : String → Value
  list : List String → Value
  other : String → Value

pub record Field : Type 0 where
  pub key : String
  pub is_list : Bool

-- strings.ToUpper, ReplaceAll, Split, Join, HasPrefix, and the pattern of Kubernetes.
pub record Strings : Type 0 where
  pub to_upper : String → String
  pub replace_all : String → String → String → String
  pub split : String → String → List String
  pub join : List String → String → String
  pub has_prefix : String → String → Bool
  pub is_service_link : String → Bool

-- koanf's New, Set, Get and Unmarshal.
pub record Koanf (Conf : Type 0) : Type 1 where
  pub Store : Type 0
  pub empty_store : Store
  pub set : String → Value → Store → Result GoError Store
  pub get : String → Store → Option Value
  pub unmarshal : Store → Result GoError Conf

-- Options: what reading the file gives, the environment, and the flags that were set.
pub record Options : Type 0 where
  pub file : Option (Result GoError (List (String × Value)))
  pub environ : List String
  pub flags : List (String × Value)

abbrev pub env_prefix : String
env_prefix = "GOKVX_"

abbrev pub env_name : Strings → Field → String
env_name strings f = joined_text env_prefix (strings.to_upper (strings.replace_all f.key "." "_"))

-- A lookup in fieldsByKey or fieldsByEnv: of fields with one name the last is kept.
abbrev pub prefer : Option Field → Bool → Field → Option Field
prefer (some later) b f = some later
prefer none b f = if b then some f else none

unfoldable pub field_named : (Field → String) → String → List Field → Option Field
field_named name s [] = none
field_named name s (f ∷ fs) = prefer (field_named name s fs) (name f == s) f

abbrev pub is_there : Option Field → Bool
is_there (some _) = true
is_there none = false

unfoldable pub is_key : List Field → String → Bool
unfolding field_named
is_key fields s = is_there (field_named (λ f. f.key) s fields)

-- The proper prefixes of the parts of a key, with the parts before them.
unfoldable pub has_section : Strings → String → List String → List String → Bool
has_section strings s before [] = false
has_section strings s before (p ∷ []) = false
has_section strings s before (p ∷ q ∷ ps) =
    strings.join (before ++ p ∷ []) "." == s || has_section strings s (before ++ p ∷ []) (q ∷ ps)

unfoldable pub is_section : Strings → List Field → String → Bool
unfolding has_section
is_section strings [] s = false
is_section strings (f ∷ fs) s =
    has_section strings s [] (strings.split f.key ".") || is_section strings fs s

abbrev pub is_empty_section : Value → Bool
is_empty_section null = true
is_empty_section empty_mapping = true
is_empty_section (scalar s) = false
is_empty_section (list ss) = false
is_empty_section (other s) = false

unfoldable pub items : Texts → List String → List String
items texts [] = []
items texts (s ∷ ss) =
    let rest = items texts ss in
    if texts.trim_space s == "" then rest else texts.trim_space s ∷ rest

abbrev pub parse_env_value : Texts → Strings → Field → String → Value
parse_env_value texts strings f value =
    if f.is_list then list (items texts (strings.split value ",")) else scalar value

-- strings.Cut.
abbrev pub cut_entry : String → Option (String × String) → String × String
cut_entry entry none = (entry, "")
cut_entry entry (some sides) = sides

module _ {Conf : Type 0} (k : Koanf Conf) where
  pub record Loaded : Type 0 where
    pub store : k.Store
    pub violations : Violations

  abbrev pub stored : String → Loaded → Result GoError k.Store → Result GoError Loaded
  stored key l (ok s) = ok (record l { store = s })
  stored key l (err e) =
      err
        (as_error (wrap reason_internal e (joined_text "configuration key could not be set: " key)))

  -- set.
  unfoldable pub set_key : String → Value → Loaded → Result GoError Loaded
  set_key key value l = stored key l (k.set key value l.store)

  abbrev pub report : String → String → Loaded → Result GoError Loaded
  report key what l = ok (record l { violations = l.violations ++ add key what })

  abbrev pub and_load :
      {A : Type 0} → Result GoError Loaded → (Loaded → Result GoError A) → Result GoError A
  and_load (ok l) more = more l
  and_load (err e) more = err e

  unfoldable pub each :
      {A : Type 0} → (A → Loaded → Result GoError Loaded) → List A → Loaded → Result GoError Loaded
  each f [] l = ok l
  each f (x ∷ xs) l = and_load (f x l) (each f xs)

  module _ (texts : Texts) (strings : Strings) (fields : List Field) where
    unfoldable pub load_default : Field × Value → Loaded → Result GoError Loaded
    load_default (f, v) = set_key f.key v

    -- The loop of loadFile.
    unfoldable pub load_file_key : String × Value → Loaded → Result GoError Loaded
    unfolding set_key is_section
    load_file_key (key, value) l =
        if is_key fields key
        then set_key key value l
        else if is_section strings fields key && is_empty_section value
        then ok l
        else if is_section strings fields key
        then report key "is a section and takes nested keys, not a value" l
        else report key "is not a configuration key" l

    unfoldable pub load_file :
        Option (Result GoError (List (String × Value))) → Loaded → Result GoError Loaded
    unfolding each
    load_file none l = ok l
    load_file (some (err e)) l =
        err (as_error (wrap reason_invalid_argument e "configuration file could not be read"))
    load_file (some (ok entries)) l = each load_file_key entries l

    -- The loop of loadEnv, on the two sides of the sign.
    unfoldable pub load_named : String → String → Option Field → Loaded → Result GoError Loaded
    unfolding set_key items
    load_named name value none l =
        if strings.is_service_link name
        then ok l
        else report name "is not a configuration variable" l
    load_named name value (some f) l = set_key f.key (parse_env_value texts strings f value) l

    unfoldable pub load_env_entry : String → Loaded → Result GoError Loaded
    unfolding load_named
    load_env_entry entry l =
        let (name, value) = cut_entry entry (texts.cut entry "=") in
        if not (strings.has_prefix name env_prefix)
        then ok l
        else load_named name value (field_named (env_name strings) name fields) l

    -- The visit of loadFlags.
    unfoldable pub load_flag : String × Value → Loaded → Result GoError Loaded
    unfolding set_key
    load_flag (name, value) l = if is_key fields name then set_key name value l else ok l

    unfoldable pub decoded : Result GoError Conf → Result GoError Conf
    decoded (ok c) = ok c
    decoded (err e) =
        err
          (as_error (wrap reason_invalid_argument e "configuration has a value of the wrong type"))

    -- The end of Load.
    unfoldable pub finish : Loaded → Result GoError Conf
    unfolding decoded
    finish l = elim (err_of texts "configuration contains unknown keys" l.violations) [
      | some e ↦ err e
      | none ↦ decoded (k.unmarshal l.store)
    ]

    unfoldable pub load : List (Field × Value) → Options → Result GoError Conf
    unfolding each load_default load_file load_env_entry load_flag finish
    load defaults opts =
        and_load (each load_default defaults (record { store = k.empty_store; violations = [] }))
          λ l1. and_load (load_file opts.file l1) λ l2.
            and_load (each load_env_entry opts.environ l2)
              λ l3. and_load (each load_flag opts.flags l3) λ l4. finish l4
