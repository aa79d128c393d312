-- ===== src/Kverr/Tests.antt =====
-- Errors of internal/kverr as its tests build them, and the theorems at them.
use gokvx.Prelude.{◌<◌, true, false, ◌≡◌, ◌≢◌, refl, some, String}
use gokvx.Kverr.Kind.{is_client_fault}
use gokvx.Kverr.Reason.{registered, kind_of, retryable, info_of, reasons, reason_invalid_argument}
use gokvx.Kverr.Error.{canceled, wrapped, as_error, new, wrap, reason_of}
use gokvx.Kverr.Registry.{registry_sound}
use gokvx.Kverr.Chain.{IsBuilt, new-IsBuilt, reason_of-wrap}

registered_invalid : registered reason_invalid_argument ≡ true
unfolding registered info_of reasons
registered_invalid = refl

registry_sound_example :
    (kind_of reason_invalid_argument < 14)
    × (retryable reason_invalid_argument ≡ true
        → is_client_fault (kind_of reason_invalid_argument) ≡ false)
registry_sound_example = registry_sound reason_invalid_argument

abbrev no_text : String
no_text = ""

new-IsBuilt_example :
    IsBuilt (new "NOT_A_REASON" no_text).details
    × (registered "NOT_A_REASON" ≡ true → (new "NOT_A_REASON" no_text).reason ≡ "NOT_A_REASON")
    × (no_text ≢ "" → (new "NOT_A_REASON" no_text).message ≡ no_text)
new-IsBuilt_example = new-IsBuilt "NOT_A_REASON" no_text

reason_of-wrap_example :
    reason_of (some (wrapped "Replay" (as_error (wrap reason_invalid_argument canceled "bad"))))
    ≡ reason_invalid_argument
reason_of-wrap_example =
    reason_of-wrap reason_invalid_argument canceled "bad" "Replay" registered_invalid
