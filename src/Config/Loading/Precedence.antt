-- ===== src/Config/Loading/Precedence.antt =====
-- internal/config/load.go: which source decides the value of a key.
use text.Mathlib.Text.{◌==◌}
use mathlib.Core.Path.{subst}
use gokvx.Prelude.{
  Bool, true, false, not, ◌&&◌, if◌then◌else◌, Bool-cases, Option-cases, Result-cases, All, String,
  List, [], ◌∷◌, ◌++◌, Option, none, some, Result, ok, err, ◌≡◌, refl, ap, sym, ◌∙◌, inl, inr,
}
use gokvx.Kverr.Error.{GoError}
use gokvx.Config.Checks.{Texts, err_of}
use gokvx.Config.Loading.{
  Value, Field, Strings, Koanf, Options, env_prefix, env_name, field_named, is_key, is_section,
  is_empty_section, Loaded, stored, set_key, report, and_load, each, load_default, load_file_key,
  load_file, load_named, cut_entry, load_env_entry, load_flag, decoded, finish, load,
}
use gokvx.Config.Loading.Writes.{
  found-is_key, Writes, latest, key_writes, file_writes, field_write, entry_writes, env_writes,
  default_writes, latest-append, All-implies, All-is_key,
}

module _ {Conf : Type 0} (k : Koanf Conf) (texts : Texts) (strings : Strings)
    (fields : List Field) where
  -- What koanf documents of Set, on keys of the configuration: no other key changes.
  pub record IsStore : Type 0 where
    pub get_empty : (j : String) → is_key fields j ≡ true → k.get j k.empty_store ≡ none
    pub get_set :
        (key j : String) (v : Value) (s t : k.Store)
        → is_key fields key ≡ true
        → is_key fields j ≡ true
        → k.set key v s ≡ ok t
        → k.get j t ≡ (if key == j then some v else k.get j s)

  -- A step from one state to the next that does these writes.
  abbrev Wrote : Writes → Loaded k → Loaded k → Type 0
  Wrote ws l m =
      (j : String) → is_key fields j ≡ true → k.get j m.store ≡ latest j ws (k.get j l.store)

  pub ok_same : (l m : Loaded k) → ◌≡◌ {A = Result GoError (Loaded k)} (ok l) (ok m) → l ≡ m
  ok_same l m h = cc

  set_key-Wrote :
      (law : IsStore) (key : String) (v : Value) (l m : Loaded k)
      → is_key fields key ≡ true
      → set_key k key v l ≡ ok m
      → Wrote ((key, v) ∷ []) l m
  unfolding set_key latest
  set_key-Wrote law key v l m h e j i = elim (Result-cases (k.set key v l.store)) [
    | inl (s, q) ↦
        let same =
          ap (λ x. x.store)
            (ok_same (record l { store = s }) m (sym (ap (stored k key l) q) ∙ e)) in
        law.get_set key j v l.store m.store h i (q ∙ ap ok same)
    | inr (x, q) ↦ let failed = sym (ap (stored k key l) q) ∙ e in absurd (cc (failed))
  ]

  kept-Wrote : (l m : Loaded k) → l.store ≡ m.store → Wrote [] l m
  unfolding latest
  kept-Wrote l m h j i = ap (k.get j) (sym h)

  pub and_load_ok :
      {A : Type 0} (r : Result GoError (Loaded k)) (more : Loaded k → Result GoError A) (a : A)
      → and_load k r more ≡ ok a
      → (l : Loaded k) × (r ≡ ok l) × (more l ≡ ok a)
  and_load_ok (ok l) more a h = (l, refl, h)
  and_load_ok (err e) more a h = absurd (cc)

  then-Wrote :
      (xs ys : Writes) (l m n : Loaded k) → Wrote xs l m → Wrote ys m n → Wrote (xs ++ ys) l n
  then-Wrote xs ys l m n g h j i =
      h j i ∙ ap (latest j ys) (g j i) ∙ sym (latest-append j xs ys (k.get j l.store))

  each-Wrote :
      {A : Type 0} (P : A → Type 0) (f : A → Loaded k → Result GoError (Loaded k)) (w : A → Writes)
      (all : List A → Writes) (xs : List A) (l m : Loaded k)
      → (all [] ≡ [])
      → ((x : A) (ys : List A) → all (x ∷ ys) ≡ w x ++ all ys)
      → ((x : A) (l m : Loaded k) → P x → f x l ≡ ok m → Wrote (w x) l m)
      → All P xs
      → each k f xs l ≡ ok m
      → Wrote (all xs) l m
  unfolding each
  each-Wrote P f w all [] l m n c h p e =
      subst (λ ws. Wrote ws l m) (sym n) (kept-Wrote l m (ap (λ x. x.store) (ok_same l m e)))
  each-Wrote P f w all (x ∷ xs) l m n c h p e =
      let (l1, q, r) = and_load_ok (f x l) (each k f xs) m e in
      subst (λ ws. Wrote ws l m) (sym (c x xs))
        (then-Wrote (w x) (all xs) l l1 m (h x l l1 p.0 q)
          (each-Wrote P f w all xs l1 m n c h p.1 r))

  load_default-Wrote :
      (law : IsStore) (x : Field × Value) (l m : Loaded k)
      → is_key fields x.0.key ≡ true
      → load_default k texts strings fields x l ≡ ok m
      → Wrote ((x.0.key, x.1) ∷ []) l m
  unfolding load_default
  load_default-Wrote law (f, v) l m p e = set_key-Wrote law f.key v l m p e

  abbrev key_write : String × Value → Writes
  key_write (key, v) = if is_key fields key then (key, v) ∷ [] else []

  load_flag-Wrote :
      (law : IsStore) (x : String × Value) (l m : Loaded k)
      → load_flag k texts strings fields x l ≡ ok m
      → Wrote (key_write x) l m
  unfolding load_flag
  load_flag-Wrote law (key, v) l m e = elim (Bool-cases (is_key fields key)) [
    | inl h ↦ rw h (set_key-Wrote law key v l m h (rw h at e))
    | inr h ↦ rw h (kept-Wrote l m (ap (λ x. x.store) (ok_same l m (rw h at e))))
  ]

  report-Wrote : (key what : String) (l m : Loaded k) → report k key what l ≡ ok m → Wrote [] l m
  report-Wrote key what l m e =
      kept-Wrote l m (ap (λ x. x.store) (ok_same (record l { violations = _ }) m e))

  load_file_key-Wrote :
      (law : IsStore) (x : String × Value) (l m : Loaded k)
      → load_file_key k texts strings fields x l ≡ ok m
      → Wrote (key_write x) l m
  unfolding load_file_key
  load_file_key-Wrote law (key, v) l m e = elim (Bool-cases (is_key fields key)) [
    | inl h ↦ rw h (set_key-Wrote law key v l m h (rw (load_file_key, h) at e))
    | inr h ↦ rw h (
        refused (is_section strings fields key && is_empty_section v)
          (is_section strings fields key) (rw (load_file_key, h) at e))
  ]
    where
      refused :
          (a b : Bool)
          → (if a
              then ok l
              else if b
              then report k key "is a section and takes nested keys, not a value" l
              else report k key "is not a configuration key" l)
            ≡ ok m
          → Wrote [] l m
      refused true b q = kept-Wrote l m (ap (λ x. x.store) (ok_same l m q))
      refused false true q = report-Wrote key _ l m q
      refused false false q = report-Wrote key _ l m q

  pub always : {A : Type 0} (xs : List A) → All (λ x. Unit {0}) xs
  always [] = tt
  always (x ∷ xs) = (tt, always xs)

  split :
      (x : String × Value) (ys : List (String × Value))
      → key_writes fields (x ∷ ys) ≡ key_write x ++ key_writes fields ys
  unfolding key_writes
  split (key, v) ys = elim (Bool-cases (is_key fields key)) [
    | inl h ↦ rw h refl
    | inr h ↦ rw h refl
  ]

  load_file-Wrote :
      (law : IsStore) (file : Option (Result GoError (List (String × Value)))) (l m : Loaded k)
      → load_file k texts strings fields file l ≡ ok m
      → Wrote (file_writes fields file) l m
  unfolding load_file key_writes
  load_file-Wrote law none l m e = kept-Wrote l m (ap (λ x. x.store) (ok_same l m e))
  load_file-Wrote law (some (err x)) l m e = absurd (cc)
  load_file-Wrote law (some (ok entries)) l m e =
      each-Wrote (λ x. Unit {0}) (load_file_key k texts strings fields) key_write
        (key_writes fields) entries l m refl (λ x ys. split x ys)
        (λ x l m p q. load_file_key-Wrote law x l m q) (always entries) e

  load_named-Wrote :
      (law : IsStore) (name value : String) (o : Option Field) (l m : Loaded k)
      → ((f : Field) → o ≡ some f → is_key fields f.key ≡ true)
      → load_named k texts strings fields name value o l ≡ ok m
      → Wrote (field_write texts strings value o) l m
  unfolding load_named
  load_named-Wrote law name value (some f) l m h e = set_key-Wrote law f.key _ l m (h f refl) e
  load_named-Wrote law name value none l m h e = unknown (strings.is_service_link name) e
    where
      unknown :
          (b : Bool)
          → (if b then ok l else report k name "is not a configuration variable" l) ≡ ok m
          → Wrote [] l m
      unknown true q = kept-Wrote l m (ap (λ x. x.store) (ok_same l m q))
      unknown false q = report-Wrote name _ l m q

  sides_Wrote :
      (law : IsStore) (sides : String × String) (l m : Loaded k)
      → (if not (strings.has_prefix sides.0 env_prefix)
          then ok l
          else load_named k texts strings fields sides.0 sides.1
              (field_named (env_name strings) sides.0 fields)
              l)
        ≡ ok m
      → Wrote (entry_writes texts strings fields sides) l m
  sides_Wrote law (name, value) l m e = elim (Bool-cases (strings.has_prefix name env_prefix)) [
    | inl h ↦ rw h (
        load_named-Wrote law name value (field_named (env_name strings) name fields) l m
          (λ f q. found-is_key (env_name strings) name fields f q) (rw h at e))
    | inr h ↦ rw h (kept-Wrote l m (ap (λ x. x.store) (ok_same l m (rw h at e))))
  ]

  load_env_entry-Wrote :
      (law : IsStore) (entry : String) (l m : Loaded k)
      → load_env_entry k texts strings fields entry l ≡ ok m
      → Wrote (entry_writes texts strings fields (cut_entry entry (texts.cut entry "="))) l m
  unfolding load_env_entry
  load_env_entry-Wrote law entry l m e =
      sides_Wrote law (cut_entry entry (texts.cut entry "=")) l m e

  default_split :
      (x : Field × Value) (ys : List (Field × Value))
      → default_writes (x ∷ ys) ≡ (x.0.key, x.1) ∷ default_writes ys
  unfolding default_writes
  default_split (f, v) ys = refl

  decoded_ok :
      (r : Result GoError Conf) (c : Conf) → decoded k texts strings fields r ≡ ok c → r ≡ ok c
  unfolding decoded
  decoded_ok (ok x) c h = h
  decoded_ok (err e) c h = absurd (cc)

  pub finish_ok :
      (l : Loaded k) (c : Conf)
      → finish k texts strings fields l ≡ ok c
      → k.unmarshal l.store ≡ ok c
  unfolding finish
  finish_ok l c h =
      elim (Option-cases (err_of texts "configuration contains unknown keys" l.violations)) [
        | inl e ↦ decoded_ok (k.unmarshal l.store) c (rw (finish, e) at h)
        | inr (x, e) ↦ let refused = rw (finish, e) at h in absurd (cc)
      ]

  -- Every key after these writes to an empty map.
  all_latest :
      (law : IsStore) (ws : Writes) (l : Loaded k)
      → Wrote ws (record { store = k.empty_store; violations = [] }) l
      → All (λ f. k.get f.key l.store ≡ latest f.key ws none) fields
  all_latest law ws l h =
      All-implies (λ f. is_key fields f.key ≡ true)
        (λ f. k.get f.key l.store ≡ latest f.key ws none)
        (λ f i. h f.key i ∙ ap (latest f.key ws) (law.get_empty f.key i)) fields (All-is_key fields)

  -- If Load answers a configuration, koanf decodes it from one map, which holds for every key the
  -- last setting of it in the order of the defaults, the file, the environment and the flags, if the defaults are settings of keys,
  -- and koanf's Set changes the key that it sets and no other key of the configuration.
  pub load-latest :
      (law : IsStore) (defaults : List (Field × Value)) (opts : Options) (conf : Conf)
      → All (λ x. is_key fields x.0.key ≡ true) defaults
      → load k texts strings fields defaults opts ≡ ok conf
      → (s : k.Store) × (k.unmarshal s ≡ ok conf)
        × All
            (λ f.
              k.get f.key s
              ≡ latest f.key
                  (default_writes defaults
                    ++ (file_writes fields opts.file
                        ++ (env_writes texts strings fields opts.environ
                            ++ key_writes fields opts.flags)))
                  none)
            fields
  unfolding load default_writes env_writes key_writes
  load-latest law defaults opts conf p e =
      let start : Loaded k = record { store = k.empty_store; violations = [] } in
      let (l1, e1, r1) =
        and_load_ok (each k (load_default k texts strings fields) defaults start) _ conf e in
      let (l2, e2, r2) = and_load_ok (load_file k texts strings fields opts.file l1) _ conf r1 in
      let (l3, e3, r3) =
        and_load_ok (each k (load_env_entry k texts strings fields) opts.environ l2) _ conf r2 in
      let (l4, e4, r4) =
        and_load_ok (each k (load_flag k texts strings fields) opts.flags l3) _ conf r3 in
      let w1 =
        each-Wrote (λ x. is_key fields x.0.key ≡ true) (load_default k texts strings fields)
          (λ x. (x.0.key, x.1) ∷ []) default_writes defaults start l1 refl default_split
          (λ x l m h q. load_default-Wrote law x l m h q) p e1 in
      let w2 = load_file-Wrote law opts.file l1 l2 e2 in
      let w3 =
        each-Wrote (λ x. Unit {0}) (load_env_entry k texts strings fields)
          (λ x. entry_writes texts strings fields (cut_entry x (texts.cut x "=")))
          (env_writes texts strings fields) opts.environ l2 l3 refl (λ x ys. refl)
          (λ x l m h q. load_env_entry-Wrote law x l m q) (always opts.environ) e3 in
      let w4 =
        each-Wrote (λ x. Unit {0}) (load_flag k texts strings fields) key_write (key_writes fields)
          opts.flags l3 l4 refl split (λ x l m h q. load_flag-Wrote law x l m q) (always opts.flags)
          e4 in
      let tail =
        then-Wrote (env_writes texts strings fields opts.environ) (key_writes fields opts.flags) l2
          l3 l4 w3 w4 in
      let most = then-Wrote (file_writes fields opts.file) _ l1 l2 l4 w2 tail in
      let whole = then-Wrote (default_writes defaults) _ start l1 l4 w1 most in
      (l4.store, finish_ok l4 conf r4, all_latest law _ l4 whole)
