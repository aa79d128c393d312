-- ===== src/Kverr/Chain.antt =====
-- Errors as they are built, and chains of them as they are classified.
use text.Mathlib.TextEquality.{eq_iff}
use text.Mathlib.Text.{◌==◌}
use gokvx.Prelude.{true, ◌≡◌, ◌≢◌, refl, inl, inr, String, some, arith, Bool-cases, if◌then◌else◌}
use gokvx.Kverr.Reason.{Reason, registered, description, reason_internal, reasons, info_of}
use gokvx.Kverr.Registry.{description-ne-nil}
use gokvx.Kverr.Error.{Details, GoError, wrapped, as_error, new, wrap, reason_of}

registered_internal : registered reason_internal ≡ true
unfolding registered info_of reasons
registered_internal = refl

-- An error that New or Wrap could have built.
pub record IsBuilt (d : Details) : Type 0 where
  pub known : registered d.reason ≡ true
  pub readable : d.message ≢ ""

module _ (r : Reason) (m : String) where
  message-ne-nil : registered r ≡ true → (if m == "" then description r else m) ≢ ""
  message-ne-nil h = elim (Bool-cases (m == "")) [
    | inl e ↦ rw e (description-ne-nil r h)
    | inr e ↦ rw e (λ p. ground (arith, eq_iff m ""))
  ]

  message_kept : m ≢ "" → (if m == "" then description r else m) ≡ m
  message_kept h = ground (arith, eq_iff m "")

-- Whatever the reason and the message, New gives a registered reason and a message that is not
-- empty; it keeps a reason that is registered, and a message that is not empty.
pub new-IsBuilt :
    (r : Reason) (m : String)
    → IsBuilt (new r m).details
      × (registered r ≡ true → (new r m).reason ≡ r)
      × (m ≢ "" → (new r m).message ≡ m)
unfolding new
new-IsBuilt r m = elim (Bool-cases (registered r)) [
  | inl e ↦
      rw e (record { known = e; readable = message-ne-nil r m e }, λ h. refl, message_kept r m)
  | inr e ↦ rw e (
    record {
      known = registered_internal;
      readable = message-ne-nil reason_internal m registered_internal;
    },
    λ h. absurd (cc),
    message_kept reason_internal m,
  )
]

-- An *Error that Wrap built is found through any text that fmt.Errorf adds, and hides what is under it.
pub reason_of-wrap :
    (r : Reason) (c : GoError) (m s : String)
    → registered r ≡ true
    → reason_of (some (wrapped s (as_error (wrap r c m)))) ≡ r
unfolding reason_of as_error wrap
reason_of-wrap r c m s h = (new-IsBuilt r m).1 h
