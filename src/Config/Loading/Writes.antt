-- ===== src/Config/Loading/Writes.antt =====
-- internal/config/load.go: the settings that each source makes, and the last one of a key.
use text.Mathlib.Text.{◌==◌}
use text.Mathlib.TextEquality.{eq_iff}
use gokvx.Prelude.{
  Bool, true, false, not, if◌then◌else◌, String, List, [], ◌∷◌, ◌++◌, Option, none, some, Result,
  ok, err, ◌≡◌, refl, ap, All, ◌⊎◌, inl, inr,
}
use gokvx.Kverr.Error.{GoError}
use gokvx.Config.Checks.{Texts}
use gokvx.Config.Loading.{
  Value, Field, Strings, env_prefix, env_name, prefer, field_named, is_there, is_key,
  parse_env_value, cut_entry,
}

prefer_there :
    (o : Option Field) (b : Bool) (g : Field) → is_there o ≡ true → is_there (prefer o b g) ≡ true
prefer_there (some f) b g h = refl
prefer_there none b g h = absurd (cc)

prefer_same : (o : Option Field) (b : Bool) (g : Field) → b ≡ true → is_there (prefer o b g) ≡ true
prefer_same (some f) b g h = refl
prefer_same none true g h = refl
prefer_same none false g h = absurd (cc)

preferred :
    (o : Option Field) (b : Bool) (g f : Field) → prefer o b g ≡ some f → (o ≡ some f) ⊎ (g ≡ f)
preferred (some x) b g f h = inl h
preferred none true g f h = inr (cc)
preferred none false g f h = absurd (cc)

-- A field that is found by any name is one of the keys.
pub found-is_key :
    (name : Field → String) (s : String) (fs : List Field) (f : Field)
    → field_named name s fs ≡ some f
    → is_key fs f.key ≡ true
unfolding field_named is_key
found-is_key name s [] f h = absurd (cc)
found-is_key name s (g ∷ gs) f h = elim (preferred (field_named name s gs) (name g == s) g f h) [
  | inl e ↦
      prefer_there (field_named (λ x. x.key) f.key gs) (g.key == f.key) g
        (found-is_key name s gs f e)
  | inr e ↦
      prefer_same (field_named (λ x. x.key) f.key gs) (g.key == f.key) g
        ((eq_iff g.key f.key).1 (ap (λ x. x.key) e))
]

pub All-implies {ℓ κ} :
    {A : Type ℓ} (P Q : A → Type κ) → ((x : A) → P x → Q x) → (xs : List A) → All P xs → All Q xs
All-implies P Q h [] p = tt
All-implies P Q h (x ∷ xs) p = (h x p.0, All-implies P Q h xs p.1)

-- The key of each field is one of the keys.
pub All-is_key : (fs : List Field) → All (λ f. is_key fs f.key ≡ true) fs
unfolding is_key field_named
All-is_key [] = tt
All-is_key (g ∷ gs) = (
  prefer_same (field_named (λ x. x.key) g.key gs) (g.key == g.key) g ((eq_iff g.key g.key).1 refl),
  All-implies (λ f. is_key gs f.key ≡ true) (λ f. is_key (g ∷ gs) f.key ≡ true)
      (λ f h. prefer_there (field_named (λ x. x.key) f.key gs) (g.key == f.key) g h) gs
      (All-is_key gs),
)

-- Settings of keys, in order; the last of a key decides.
abbrev pub Writes : Type 0
Writes = List (String × Value)

unfoldable pub latest : String → Writes → Option Value → Option Value
latest j [] v = v
latest j ((key, w) ∷ ws) v = latest j ws (if key == j then some w else v)

-- The settings of each source: those of its entries that name a key.
unfoldable pub key_writes : List Field → List (String × Value) → Writes
key_writes fields [] = []
key_writes fields ((key, v) ∷ es) =
    let rest = key_writes fields es in if is_key fields key then (key, v) ∷ rest else rest

abbrev pub file_writes : List Field → Option (Result GoError (List (String × Value))) → Writes
file_writes fields none = []
file_writes fields (some (err e)) = []
file_writes fields (some (ok entries)) = key_writes fields entries

abbrev pub field_write : Texts → Strings → String → Option Field → Writes
field_write texts strings value none = []
field_write texts strings value (some f) = (f.key, parse_env_value texts strings f value) ∷ []

abbrev pub entry_writes : Texts → Strings → List Field → String × String → Writes
entry_writes texts strings fields (name, value) =
    if not (strings.has_prefix name env_prefix)
    then []
    else field_write texts strings value (field_named (env_name strings) name fields)

unfoldable pub env_writes : Texts → Strings → List Field → List String → Writes
env_writes texts strings fields [] = []
env_writes texts strings fields (e ∷ es) =
    entry_writes texts strings fields (cut_entry e (texts.cut e "="))
    ++ env_writes texts strings fields es

unfoldable pub default_writes : List (Field × Value) → Writes
default_writes [] = []
default_writes ((f, v) ∷ fs) = (f.key, v) ∷ default_writes fs

pub latest-append :
    (j : String) (xs ys : Writes) (v : Option Value)
    → latest j (xs ++ ys) v ≡ latest j ys (latest j xs v)
unfolding latest
latest-append j [] ys v = refl
latest-append j ((key, w) ∷ xs) ys v = latest-append j xs ys (if key == j then some w else v)
