-- ===== src/Config/Loading/Accepted.antt =====
-- internal/config/load.go: which entries of the sources Load accepts.
use gokvx.Prelude.{
  Bool, true, false, not, ◌||◌, ◌&&◌, if◌then◌else◌, Bool-cases, Result-cases, All, String, List,
  [], ◌∷◌, ◌++◌, Option, none, some, Result, ok, err, ◌≡◌, refl, ap, sym, ◌∙◌, inl, inr,
}
use gokvx.Kverr.Error.{GoError}
use gokvx.Config.Checks.{Texts, Violations, add, err_of}
use gokvx.Config.Loading.{
  Value, Field, Strings, Koanf, Options, env_prefix, env_name, field_named, is_there, is_key,
  is_section, is_empty_section, Loaded, stored, set_key, report, each, load_default, load_file_key,
  load_file, load_named, cut_entry, load_env_entry, load_flag, finish, load,
}
use gokvx.Config.Loading.Precedence.{and_load_ok, ok_same}

-- An entry of the file that names a key, or a section that it leaves empty.
abbrev pub IsKnownEntry : Strings → List Field → String × Value → Type 0
IsKnownEntry strings fields (key, v) =
    (is_key fields key || (is_section strings fields key && is_empty_section v)) ≡ true

abbrev pub IsKnownFile :
    Strings → List Field → Option (Result GoError (List (String × Value))) → Type 0
IsKnownFile strings fields none = Unit
IsKnownFile strings fields (some (err e)) = ⊥
IsKnownFile strings fields (some (ok entries)) = All (IsKnownEntry strings fields) entries

-- A variable of another program, of a key, or of a Kubernetes service.
abbrev pub IsKnownVariable : Texts → Strings → List Field → String → Type 0
IsKnownVariable texts strings fields entry =
    let name = (cut_entry entry (texts.cut entry "=")).0 in
    (not (strings.has_prefix name env_prefix)
      || (is_there (field_named (env_name strings) name fields) || strings.is_service_link name))
    ≡ true

module _ {Conf : Type 0} (k : Koanf Conf) (texts : Texts) (strings : Strings)
    (fields : List Field) where
  abbrev IsQuiet : Loaded k → Type 0
  IsQuiet l = l.violations ≡ []

  set_key-IsQuiet :
      (key : String) (v : Value) (l m : Loaded k) → set_key k key v l ≡ ok m → IsQuiet m → IsQuiet l
  unfolding set_key
  set_key-IsQuiet key v l m e q = elim (Result-cases (k.set key v l.store)) [
    | inl (s, h) ↦
        ap (λ x. x.violations)
          (ok_same k texts strings fields (record l { store = s }) m
            (sym (ap (stored k key l) h) ∙ e))
        ∙ q
    | inr (x, h) ↦ let failed = sym (ap (stored k key l) h) ∙ e in absurd (cc (failed))
  ]

  -- A reported entry leaves a violation.
  report_loud : (key what : String) (l m : Loaded k) → report k key what l ≡ ok m → IsQuiet m → ⊥
  unfolding add
  report_loud key what l m e q = loud l.violations (
      ap (λ x. x.violations)
        (ok_same k texts strings fields (record l { violations = l.violations ++ add key what }) m
          e)
      ∙ q)
    where
      loud : (vs : Violations) → vs ++ add key what ≡ [] → ⊥
      loud [] h = cc
      loud (v ∷ vs) h = cc

  each-IsQuiet :
      {A : Type 0} (Q : A → Type 0) (f : A → Loaded k → Result GoError (Loaded k)) (xs : List A)
      (l m : Loaded k)
      → ((x : A) (l m : Loaded k) → f x l ≡ ok m → IsQuiet m → IsQuiet l × Q x)
      → each k f xs l ≡ ok m
      → IsQuiet m
      → IsQuiet l × All Q xs
  unfolding each
  each-IsQuiet Q f [] l m h e q =
      (ap (λ x. x.violations) (ok_same k texts strings fields l m e) ∙ q, tt)
  each-IsQuiet Q f (x ∷ xs) l m h e q =
      let (l1, a, r) = and_load_ok k texts strings fields (f x l) (each k f xs) m e in
      let (q1, all) = each-IsQuiet Q f xs l1 m h r q in
      let (q0, one) = h x l l1 a q1 in (q0, (one, all))

  load_file_key-IsQuiet :
      (x : String × Value) (l m : Loaded k)
      → load_file_key k texts strings fields x l ≡ ok m
      → IsQuiet m
      → IsQuiet l × IsKnownEntry strings fields x
  unfolding load_file_key
  load_file_key-IsQuiet (key, v) l m e q = elim (Bool-cases (is_key fields key)) [
    | inl h ↦ (set_key-IsQuiet key v l m (rw (load_file_key, h) at e) q, rw h refl)
    | inr h ↦
        let (q0, known) =
          section (is_section strings fields key) (is_empty_section v)
            (rw (load_file_key, h) at e) in
        (q0, rw h known)
  ]
    where
      section :
          (a b : Bool)
          → (if a && b
              then ok l
              else if a
              then report k key "is a section and takes nested keys, not a value" l
              else report k key "is not a configuration key" l)
            ≡ ok m
          → IsQuiet l × ((a && b) ≡ true)
      section true true r =
          (ap (λ x. x.violations) (ok_same k texts strings fields l m r) ∙ q, refl)
      section true false r = absurd (report_loud key _ l m r q)
      section false true r = absurd (report_loud key _ l m r q)
      section false false r = absurd (report_loud key _ l m r q)

  load_file-IsQuiet :
      (file : Option (Result GoError (List (String × Value)))) (l m : Loaded k)
      → load_file k texts strings fields file l ≡ ok m
      → IsQuiet m
      → IsQuiet l × IsKnownFile strings fields file
  unfolding load_file
  load_file-IsQuiet none l m e q =
      (ap (λ x. x.violations) (ok_same k texts strings fields l m e) ∙ q, tt)
  load_file-IsQuiet (some (err x)) l m e q = absurd (cc)
  load_file-IsQuiet (some (ok entries)) l m e q =
      each-IsQuiet (IsKnownEntry strings fields) (load_file_key k texts strings fields) entries l m
        load_file_key-IsQuiet e q

  load_named-IsQuiet :
      (name value : String) (o : Option Field) (l m : Loaded k)
      → load_named k texts strings fields name value o l ≡ ok m
      → IsQuiet m
      → IsQuiet l × ((is_there o || strings.is_service_link name) ≡ true)
  unfolding load_named
  load_named-IsQuiet name value (some f) l m e q = (set_key-IsQuiet f.key _ l m e q, refl)
  load_named-IsQuiet name value none l m e q = unknown (strings.is_service_link name) e
    where
      unknown :
          (b : Bool)
          → (if b then ok l else report k name "is not a configuration variable" l) ≡ ok m
          → IsQuiet l × (b ≡ true)
      unknown true r = (ap (λ x. x.violations) (ok_same k texts strings fields l m r) ∙ q, refl)
      unknown false r = absurd (report_loud name _ l m r q)

  load_env_entry-IsQuiet :
      (entry : String) (l m : Loaded k)
      → load_env_entry k texts strings fields entry l ≡ ok m
      → IsQuiet m
      → IsQuiet l × IsKnownVariable texts strings fields entry
  unfolding load_env_entry
  load_env_entry-IsQuiet entry l m e q = sides (cut_entry entry (texts.cut entry "=")) e
    where
      sides :
          (x : String × String)
          → (if not (strings.has_prefix x.0 env_prefix)
              then ok l
              else load_named k texts strings fields x.0 x.1
                  (field_named (env_name strings) x.0 fields)
                  l)
            ≡ ok m
          → IsQuiet l
            × ((not (strings.has_prefix x.0 env_prefix)
                  || (is_there (field_named (env_name strings) x.0 fields)
                      || strings.is_service_link x.0))
                ≡ true)
      sides (name, value) r = elim (Bool-cases (strings.has_prefix name env_prefix)) [
        | inl h ↦ rw h (
            load_named-IsQuiet name value (field_named (env_name strings) name fields) l m
              (rw h at r) q)
        | inr h ↦
            rw h (ap (λ x. x.violations) (ok_same k texts strings fields l m (rw h at r)) ∙ q, refl)
      ]

  load_flag-IsQuiet :
      (x : String × Value) (l m : Loaded k)
      → load_flag k texts strings fields x l ≡ ok m
      → IsQuiet m
      → IsQuiet l × Unit {0}
  unfolding load_flag
  load_flag-IsQuiet (key, v) l m e q = elim (Bool-cases (is_key fields key)) [
    | inl h ↦ (set_key-IsQuiet key v l m (rw h at e) q, tt)
    | inr h ↦ (ap (λ x. x.violations) (ok_same k texts strings fields l m (rw h at e)) ∙ q, tt)
  ]

  finish-IsQuiet : (l : Loaded k) (c : Conf) → finish k texts strings fields l ≡ ok c → IsQuiet l
  unfolding finish err_of
  finish-IsQuiet l c h = go l.store l.violations h
    where
      go :
          (s : k.Store) (vs : Violations)
          → finish k texts strings fields (record { store = s; violations = vs }) ≡ ok c
          → vs ≡ []
      go s [] q = refl
      go s (v ∷ vs) q = unfold finish in absurd (cc)

  -- A configuration that Load answers comes from a file whose entries name keys or leave a section
  -- empty, and from an environment whose GOKVX_ variables name keys or are Kubernetes' links to
  -- services: any other entry makes Load fail.
  pub load-Known :
      (defaults : List (Field × Value)) (opts : Options) (conf : Conf)
      → load k texts strings fields defaults opts ≡ ok conf
      → IsKnownFile strings fields opts.file
        × All (IsKnownVariable texts strings fields) opts.environ
  unfolding load
  load-Known defaults opts conf e =
      let start : Loaded k = record { store = k.empty_store; violations = [] } in
      let (l1, e1, r1) =
        and_load_ok k texts strings fields
          (each k (load_default k texts strings fields) defaults start) _ conf e in
      let (l2, e2, r2) =
        and_load_ok k texts strings fields (load_file k texts strings fields opts.file l1) _ conf
          r1 in
      let (l3, e3, r3) =
        and_load_ok k texts strings fields
          (each k (load_env_entry k texts strings fields) opts.environ l2) _ conf r2 in
      let (l4, e4, r4) =
        and_load_ok k texts strings fields (each k (load_flag k texts strings fields) opts.flags l3)
          _ conf r3 in
      let (q3, _) =
        each-IsQuiet (λ x. Unit {0}) (load_flag k texts strings fields) opts.flags l3 l4
          load_flag-IsQuiet e4 (finish-IsQuiet l4 conf r4) in
      let (q2, env) =
        each-IsQuiet (IsKnownVariable texts strings fields) (load_env_entry k texts strings fields)
          opts.environ l2 l3 load_env_entry-IsQuiet e3 q3 in
      let (q1, file) = load_file-IsQuiet opts.file l1 l2 e2 q2 in (file, env)
