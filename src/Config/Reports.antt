-- ===== src/Config/Reports.antt =====
-- internal/config/validate.go: the error that Validate answers.
use mathlib.Core.List.{Permᴰ}
use mathlib.Core.List.Permᴰ
use gokvx.Prelude.{if_elim, ◌≡◌, refl, [], ◌∷◌, Option, none, some, String}
use gokvx.Kverr.Error.{GoError, Details, kv}
use gokvx.Kverr.Error.{FieldViolation, as_error, new, with_violations}
use gokvx.Kverr.Reason.{registered, info_of, reasons, reason_invalid_argument}
use gokvx.Config.Types.{Config}
use gokvx.Config.Checks.{Texts, Violations, insert_violation, sort_violations, err_of}
use gokvx.Config.Rules.{found, validate}

insert_violation-Permᴰ :
    (texts : Texts) (x : FieldViolation) (ys : Violations)
    → Permᴰ (insert_violation texts x ys) (x ∷ ys)
unfolding insert_violation
insert_violation-Permᴰ texts x [] = Permᴰ.refl (x ∷ [])
insert_violation-Permᴰ texts x (y ∷ ys) =
    if_elim (λ zs. Permᴰ zs (x ∷ y ∷ ys)) (texts.less y.field x.field)
      (y ∷ insert_violation texts x ys) (x ∷ y ∷ ys)
      (Permᴰ.trans (Permᴰ.cons refl (insert_violation-Permᴰ texts x ys)) (Permᴰ.swap refl refl))
      (Permᴰ.refl (x ∷ y ∷ ys))

sort_violations-Permᴰ : (texts : Texts) (xs : Violations) → Permᴰ (sort_violations texts xs) xs
unfolding sort_violations
sort_violations-Permᴰ texts [] = Permᴰ.nil
sort_violations-Permᴰ texts (x ∷ xs) =
    Permᴰ.trans (insert_violation-Permᴰ texts x (sort_violations texts xs))
      (Permᴰ.cons refl (sort_violations-Permᴰ texts xs))

-- What Validate answers, when `xs` is what the rules found.
abbrev pub Reported : Violations → Option GoError → Type 0
Reported xs none = xs ≡ []
Reported xs (some e) =
    (d : Details) × (e ≡ kv d) × (d.reason ≡ reason_invalid_argument) × Permᴰ d.violations xs

err_of-Reported : (texts : Texts) (m : String) (xs : Violations) → Reported xs (err_of texts m xs)
unfolding err_of as_error with_violations new registered info_of reasons
err_of-Reported texts m [] = refl
err_of-Reported texts m (x ∷ xs) = (_, refl, refl, sort_violations-Permᴰ texts (x ∷ xs))

-- Validate answers no error if the rules find nothing, and else an INVALID_ARGUMENT error that lists
-- every violation that they find as often as they find it, and no other.
pub validate-Reported : (texts : Texts) (c : Config) → Reported (found texts c) (validate texts c)
unfolding validate
validate-Reported texts c = err_of-Reported texts "configuration is invalid" (found texts c)
