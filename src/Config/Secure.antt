-- ===== src/Config/Secure.antt =====
-- internal/config: what a configuration that Validate accepts is like.
use text.Mathlib.TextEquality.{eq_iff}
use text.Mathlib.Text.{◌==◌}
use gokvx.Prelude.{
  Bool, true, false, not, ◌&&◌, if◌then◌else◌, Bool-cases, ◌≡◌, ◌≢◌, ◌⊎◌, inl, inr, refl, sym,
  arith, All, ◌++◌, String, List, [], ◌∷◌, Option, none, some,
}
use gokvx.Config.Types.{Config}
use gokvx.Config.Checks.{
  Texts, Violations, add, add_if, err_of, contains, require_one_of, require_value, is_loopback,
}
use gokvx.Config.Rules.{
  development, mode_enabled, mode_disabled, Setting, scope_settings, listeners, for_each,
  require_loopback, validate_node, validate_listen, validate_disabled, validate_jwt,
  validate_scopes, seen_as, distinct_from, check_scopes, validate_auth, validate_tls, found,
  validate,
}

-- Two lists of violations that add nothing together.
pub append-nil_both : (xs ys : Violations) → xs ++ ys ≡ [] → (xs ≡ []) × (ys ≡ [])
append-nil_both [] ys h = (refl, h)
append-nil_both (x ∷ xs) ys h = absurd (cc)

add_if-nil : (t : Bool) (k d : String) → add_if t k d ≡ [] → t ≡ false
unfolding add_if add
add_if-nil true k d h = absurd (cc)
add_if-nil false k d h = refl

err_of-none : (texts : Texts) (m : String) (xs : Violations) → err_of texts m xs ≡ none → xs ≡ []
unfolding err_of
err_of-none texts m [] h = refl
err_of-none texts m (x ∷ xs) h = absurd (cc)

contains-two : (s a b : String) → contains s (a ∷ b ∷ []) ≡ true → (s ≡ a) ⊎ (s ≡ b)
unfolding contains
contains-two s a b h = elim (Bool-cases (a == s)) [
  | inl e ↦ inl (sym ((eq_iff a s).0 e))
  | inr e ↦ elim (Bool-cases (b == s)) [
    | inl f ↦ inr (sym ((eq_iff b s).0 f))
    | inr f ↦ absurd (ground (arith, e, f, h))
  ]
]

pub require_one_of-nil :
    (texts : Texts) (k v : String) (allowed : List String)
    → require_one_of texts k v allowed ≡ []
    → contains v allowed ≡ true
unfolding require_one_of add
require_one_of-nil texts k v allowed h = elim (Bool-cases (contains v allowed)) [
  | inl e ↦ e
  | inr e ↦ absurd (cc (rw e at h))
]

-- An address that no other host can reach, or none at all.
abbrev pub Local : Texts → String → Type 0
Local texts a = (a ≡ "") ⊎ (is_loopback texts a ≡ true)

Local-of : (texts : Texts) (k v : String) → require_loopback texts (k, v) ≡ [] → Local texts v
unfolding require_loopback
Local-of texts k v h = elim (Bool-cases (v == "")) [
  | inl e ↦ inl ((eq_iff v "").0 e)
  | inr e ↦ elim (Bool-cases (is_loopback texts v)) [
    | inl f ↦ inr f
    | inr f ↦ absurd (true_ne (add_if-nil _ _ _ h) e f)
  ]
]
  where
    true_ne : {x y : Bool} → (not x && not y) ≡ false → x ≡ false → y ≡ false → ⊥
    true_ne h e f = ground (arith, h, e, f)

loopback-Local :
    (texts : Texts) (ss : List Setting)
    → for_each (require_loopback texts) ss ≡ []
    → All (λ s. Local texts s.1) ss
unfolding for_each require_loopback
loopback-Local texts [] h = tt
loopback-Local texts ((k, v) ∷ ss) h =
    let (a, b) = append-nil_both _ _ h in (Local-of texts k v a, loopback-Local texts ss b)

seen-none : (v : String) (seen : List Setting) → seen_as v seen ≡ none → All (λ s. s.1 ≢ v) seen
unfolding seen_as
seen-none v [] h = tt
seen-none v ((k, o) ∷ seen) h = elim (Bool-cases (o == v)) [
  | inl e ↦ absurd (not_none (rw e at h))
  | inr e ↦ (different e, seen-none v seen (rw e at h))
]
  where
    not_none : some k ≡ none → ⊥
    not_none p = cc

    different : (o == v) ≡ false → o ≢ v
    different e p = ground (arith, e, (eq_iff o v).1 p)

distinct_from-nil :
    (o : Option String) (k v : String) → distinct_from o (k, v) ≡ [] → (v == "") ≡ false → o ≡ none
unfolding distinct_from
distinct_from-nil none k v h ne = refl
distinct_from-nil (some other) k v h ne = absurd (ground (arith, add_if-nil _ _ _ h, ne))

require_value-nil : (k v : String) → require_value k v ≡ [] → (v == "") ≡ false
unfolding require_value
require_value-nil k v h = add_if-nil _ _ _ h

-- Each value differs from those before it.
abbrev AllNew : List Setting → List Setting → Type 0
AllNew seen [] = Unit
AllNew seen (s ∷ ss) = All (λ t. t.1 ≢ s.1) seen × AllNew (s ∷ seen) ss

check_scopes-nil : (seen ss : List Setting) → check_scopes seen ss ≡ [] → AllNew seen ss
unfolding check_scopes
check_scopes-nil seen [] h = tt
check_scopes-nil seen (s ∷ ss) h =
    let (a, rest) = append-nil_both (require_value s.0 s.1) _ h in
    let (b, more) = append-nil_both (distinct_from (seen_as s.1 seen) s) _ rest in
    (
      seen-none s.1 seen (distinct_from-nil _ s.0 s.1 b (require_value-nil s.0 s.1 a)),
      check_scopes-nil (s ∷ seen) ss more,
    )

-- What every configuration that Validate accepts promises.
pub record Secure (texts : Texts) (c : Config) : Type 0 where
  pub mode : (c.auth.mode ≡ mode_enabled) ⊎ (c.auth.mode ≡ mode_disabled)
  pub development_only : c.auth.mode ≡ mode_disabled → c.node.environment ≡ development
  pub local_only :
      c.auth.mode ≡ mode_disabled
      → c.auth.insecure_allow_remote ≡ false
      → All (λ s. Local texts s.1) (listeners c)
  pub encrypted : c.auth.mode ≡ mode_enabled → c.tls.enabled ≡ true
  pub read_write : c.auth.scopes.read ≢ c.auth.scopes.write
  pub read_watch : c.auth.scopes.read ≢ c.auth.scopes.watch
  pub read_admin : c.auth.scopes.read ≢ c.auth.scopes.admin
  pub write_watch : c.auth.scopes.write ≢ c.auth.scopes.watch
  pub write_admin : c.auth.scopes.write ≢ c.auth.scopes.admin
  pub watch_admin : c.auth.scopes.watch ≢ c.auth.scopes.admin

module _ (texts : Texts) (c : Config) (h : validate texts c ≡ none) where
  pub all_quiet : found texts c ≡ []
  unfolding validate
  all_quiet = err_of-none texts "configuration is invalid" (found texts c) h

  auth_quiet : (validate_auth texts c ≡ []) × (validate_tls texts c ≡ [])
  unfolding found
  auth_quiet =
      let (a, p) = append-nil_both (validate_node texts c) _ all_quiet in
      let (b, q) = append-nil_both (validate_listen texts c) _ p in
      let (d, r) = append-nil_both (validate_auth texts c) _ q in
      (d, (append-nil_both (validate_tls texts c) _ r).0)

  auth_parts :
      (contains c.auth.mode (mode_enabled ∷ mode_disabled ∷ []) ≡ true)
      × (validate_scopes c.auth.scopes ≡ [])
      × ((if not (c.auth.mode == mode_disabled) then [] else validate_disabled texts c) ≡ [])
  unfolding validate_auth
  auth_parts =
      let (a, p) =
        append-nil_both
          (require_one_of texts "auth.mode" c.auth.mode (mode_enabled ∷ mode_disabled ∷ [])) _
          auth_quiet.0 in
      let (b, q) = append-nil_both (validate_jwt texts c) _ p in
      let (d, r) = append-nil_both (validate_scopes c.auth.scopes) _ q in
      (require_one_of-nil texts "auth.mode" c.auth.mode _ a, d, r)

  disabled_quiet : c.auth.mode ≡ mode_disabled → validate_disabled texts c ≡ []
  disabled_quiet e = rw ((eq_iff c.auth.mode mode_disabled).1 e) at auth_parts.2

  development_of : c.auth.mode ≡ mode_disabled → c.node.environment ≡ development
  unfolding validate_disabled
  development_of e = (eq_iff c.node.environment development).0 (
      ground (
        arith,
        add_if-nil _ _ _
            (append-nil_both
              (add_if (not (c.node.environment == development)) "auth.mode"
                "may be disabled only when node.environment is development")
              _ (disabled_quiet e)).0,
      ))

  Local-listeners :
      c.auth.mode ≡ mode_disabled
      → c.auth.insecure_allow_remote ≡ false
      → All (λ s. Local texts s.1) (listeners c)
  unfolding validate_disabled
  Local-listeners e f = loopback-Local texts (listeners c) (
      rw f at
        (append-nil_both
          (add_if (not (c.node.environment == development)) "auth.mode"
            "may be disabled only when node.environment is development")
          _ (disabled_quiet e)).1)

  encrypted_of : c.auth.mode ≡ mode_enabled → c.tls.enabled ≡ true
  unfolding validate_tls
  encrypted_of e = elim (Bool-cases c.tls.enabled) [
    | inl on ↦ on
    | inr off ↦ absurd (true_ne ((eq_iff c.auth.mode mode_enabled).1 e) (tls_off off))
  ]
    where
      true_ne : (c.auth.mode == mode_enabled) ≡ true → (c.auth.mode == mode_enabled) ≡ false → ⊥
      true_ne p q = cc

      tls_off : c.tls.enabled ≡ false → (c.auth.mode == mode_enabled) ≡ false
      tls_off off = add_if-nil _ _ _ (
          rw off at
            (append-nil_both
              (require_one_of texts "tls.min_version" c.tls.min_version ("1.3" ∷ "1.2" ∷ [])) _
              auth_quiet.1).1)

  new_scopes : AllNew [] (scope_settings c.auth.scopes)
  unfolding validate_scopes
  new_scopes = check_scopes-nil [] (scope_settings c.auth.scopes) auth_parts.1

  -- A configuration that Validate accepts authenticates, or is one for development whose listeners
  -- are out of reach unless that was allowed; it encrypts whenever it authenticates; and no two
  -- of the four operation classes share a scope.
  pub validate-Secure : Secure texts c
  validate-Secure =
      let (
        _,
        (
          (read_write, _),
          ((write_watch, (read_watch, _)), ((watch_admin, (write_admin, (read_admin, _))), _)),
        ),
      ) =
        new_scopes in
      record {
        mode = contains-two c.auth.mode mode_enabled mode_disabled auth_parts.0;
        development_only = development_of;
        local_only = Local-listeners;
        encrypted = encrypted_of;
        read_write = read_write;
        read_watch = read_watch;
        read_admin = read_admin;
        write_watch = write_watch;
        write_admin = write_admin;
        watch_admin = watch_admin;
      }
