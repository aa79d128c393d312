-- ===== src/Kverr/Registry.antt =====
-- The registry of reasons is consistent.
use text.Mathlib.TextEquality.{eq_iff}
use gokvx.Prelude.{
  ◌<◌, ltb, Bool, true, false, not, ◌&&◌, ◌≡◌, ◌≢◌, refl, [], ◌∷◌, some, Option-cases, arith, inl,
  inr,
}
use text.Mathlib.Text.{◌==◌ as str_eq}
use gokvx.Kverr.Kind.{is_client_fault}
use gokvx.Kverr.Reason.{
  Reason, ReasonInfo, Registry, info_of, reasons, kind_of, retryable, description, registered,
}

-- Every entry of a registry passes a test.
all_entries : (ReasonInfo → Bool) → Registry → Bool
all_entries p [] = true
all_entries p ((r, info) ∷ m) = p info && all_entries p m

all_entries-info_of :
    (p : ReasonInfo → Bool) (m : Registry) (r : Reason) (info : ReasonInfo)
    → all_entries p m ≡ true
    → info_of r m ≡ some info
    → p info ≡ true
unfolding all_entries info_of
all_entries-info_of p [] r info h e = absurd (cc)
all_entries-info_of p ((s, i) ∷ m) r info h e = ground (arith, all_entries-info_of p m r info)

sound_entry : ReasonInfo → Bool
sound_entry i =
    not (i.retryable && is_client_fault i.kind) && (not (str_eq i.description "") && ltb i.kind 14)

reasons-sound_entry : all_entries sound_entry reasons ≡ true
unfolding all_entries sound_entry reasons is_client_fault
reasons-sound_entry = refl

registered-info_of :
    (r : Reason) → registered r ≡ true → (i : ReasonInfo) × (info_of r reasons ≡ some i)
unfolding registered
registered-info_of r h = elim (Option-cases (info_of r reasons)) [
  | inl e ↦ absurd (ground arith)
  | inr e ↦ e
]

sound_info : (r : Reason) (i : ReasonInfo) → info_of r reasons ≡ some i → sound_entry i ≡ true
sound_info r i e = all_entries-info_of sound_entry reasons r i reasons-sound_entry e

-- Of every text, registered or not: its kind is one of the enumeration, and a reason that may be
-- retried never blames the caller.
pub registry_sound :
    (r : Reason) → (kind_of r < 14) × (retryable r ≡ true → is_client_fault (kind_of r) ≡ false)
unfolding kind_of retryable sound_entry
registry_sound r = elim (Option-cases (info_of r reasons)) [
  | inl e ↦ rw (e, kind_of, retryable) (omega arith, λ h. cc)
  | inr (i, e) ↦
      rw (e, kind_of, retryable)
        (ground (arith, sound_info r i e), ground (arith, sound_info r i e))
]

-- A registered reason has a description.
pub description-ne-nil : (r : Reason) → registered r ≡ true → description r ≢ ""
unfolding description sound_entry
description-ne-nil r h =
    let (i, e) = registered-info_of r h in
    rw (e, description) (λ p. ground (arith, sound_info r i e, eq_iff i.description ""))
