-- ===== src/Config/Announce/Safe.antt =====
-- internal/config/report.go: what a configuration without warnings promises.
use text.Mathlib.TextEquality.{eq_iff}
use text.Mathlib.Text.{◌==◌}
use gokvx.Prelude.{
  String, Bool, true, false, not, if◌then◌else◌, Bool-cases, List, [], ◌∷◌, ◌++◌, none, arith, ◌≡◌,
  ◌≢◌, refl, sym, inl, inr,
}
use gokvx.Config.Types.{Config}
use gokvx.Config.Checks.{Texts, contains}
use gokvx.Config.Rules.{
  mode_enabled, mode_disabled, fsync_always, fsync_interval, fsync_os, validate, found,
  validate_node, validate_listen, validate_auth, validate_tls, validate_limits, validate_storage,
}
use gokvx.Config.Secure.{validate-Secure, append-nil_both, require_one_of-nil, all_quiet}
use gokvx.Config.Announce.{Warning, warn_if, fsync_warnings, warnings}

both_nil : (xs ys : List Warning) → xs ++ ys ≡ [] → (xs ≡ []) × (ys ≡ [])
both_nil [] ys h = (refl, h)
both_nil (x ∷ xs) ys h = absurd (cc)

warn_if-nil : (b : Bool) (s t : String) → warn_if b s t ≡ [] → b ≡ false
warn_if-nil true s t h = absurd (cc)
warn_if-nil false s t h = refl

not-false : (b : Bool) → not b ≡ false → b ≡ true
not-false true h = refl
not-false false h = absurd (cc)

differ : (s t : String) → (s == t) ≡ false → s ≢ t
differ s t h e = ground (arith, h, (eq_iff s t).1 e)

choice_nil :
    (a b : Bool) (w : Warning) (s t : String)
    → (if a then w ∷ [] else warn_if b s t) ≡ []
    → (a ≡ false) × (b ≡ false)
choice_nil true b w s t h = absurd (cc)
choice_nil false b w s t h = (refl, warn_if-nil b s t h)

fsync_warnings-nil :
    (c : Config)
    → fsync_warnings c ≡ []
    → (c.storage.fsync ≢ fsync_interval) × (c.storage.fsync ≢ fsync_os)
unfolding fsync_warnings
fsync_warnings-nil c h =
    let (a, b) =
      choice_nil (c.storage.fsync == fsync_interval) (c.storage.fsync == fsync_os) _ _ _ h in
    (differ c.storage.fsync fsync_interval a, differ c.storage.fsync fsync_os b)

one_of_three : (s a b d : String) → contains s (a ∷ b ∷ d ∷ []) ≡ true → s ≢ b → s ≢ d → s ≡ a
unfolding contains
one_of_three s a b d h n m = elim (Bool-cases (a == s)) [
  | inl e ↦ sym ((eq_iff a s).0 e)
  | inr e ↦ elim (Bool-cases (b == s)) [
    | inl f ↦ absurd (n (sym ((eq_iff b s).0 f)))
    | inr f ↦ elim (Bool-cases (d == s)) [
      | inl g ↦ absurd (m (sym ((eq_iff d s).0 g)))
      | inr g ↦ absurd (ground (arith, e, f, g, h))
    ]
  ]
]

fsync_known :
    (texts : Texts) (c : Config)
    → validate texts c ≡ none
    → contains c.storage.fsync (fsync_always ∷ fsync_interval ∷ fsync_os ∷ []) ≡ true
unfolding found validate_storage
fsync_known texts c h =
    let (a, p) = append-nil_both (validate_node texts c) _ (all_quiet texts c h) in
    let (b, q) = append-nil_both (validate_listen texts c) _ p in
    let (d, r) = append-nil_both (validate_auth texts c) _ q in
    let (e, s) = append-nil_both (validate_tls texts c) _ r in
    let (f, t) = append-nil_both (validate_limits c) _ s in
    let (storage, _) = append-nil_both (validate_storage texts c) _ t in
    let (_, u) = append-nil_both _ _ storage in
    require_one_of-nil texts "storage.fsync" c.storage.fsync
      (fsync_always ∷ fsync_interval ∷ fsync_os ∷ []) (append-nil_both _ _ u).0

-- A configuration that Validate accepts and that has no warning authenticates its callers, encrypts
-- its traffic, and flushes every write before it is acknowledged.
pub warnings-Secure :
    (texts : Texts) (c : Config)
    → validate texts c ≡ none
    → warnings c ≡ []
    → (c.auth.mode ≡ mode_enabled)
      × (c.tls.enabled ≡ true)
      × (c.auth.insecure_allow_remote ≡ false)
      × (c.storage.fsync ≡ fsync_always)
unfolding warnings
warnings-Secure texts c h w =
    let (a, p) = both_nil (warn_if (c.auth.mode == mode_disabled) _ _) _ w in
    let (b, q) = both_nil (warn_if c.auth.insecure_allow_remote _ _) _ p in
    let (d, r) = both_nil (warn_if (not c.tls.enabled) _ _) _ q in
    let (n, m) = fsync_warnings-nil c r in
    (
      elim (validate-Secure texts c h).mode [
        | inl e ↦ e
        | inr e ↦ absurd (differ c.auth.mode mode_disabled (warn_if-nil _ _ _ a) e)
      ],
      not-false c.tls.enabled (warn_if-nil _ _ _ d),
      warn_if-nil _ _ _ b,
      one_of_three c.storage.fsync fsync_always fsync_interval fsync_os (fsync_known texts c h) n m,
    )
