-- ===== src/Prelude/Errors.antt =====
-- A check that collects what is wrong in a list, `errors.append(...)`.
use mathlib.Core.Path.{◌≡◌, refl}
use mathlib.Core.Logic.{◌↔◌}
use mathlib.Core.Bool.{Bool, true, false}
use mathlib.Core.List.{List, [], ◌∷◌, ◌++◌}

module _ {ℓ} {E : Type ℓ} where
  -- `if bad: errors.append(e)`
  abbrev pub error_if : Bool → E → List E
  error_if true e = e ∷ []
  error_if false e = []

  pub error_if-nil : (bad : Bool) (e : E) → (error_if bad e ≡ []) ↔ (bad ≡ false)
  error_if-nil true e = (λ h. cc, λ h. cc)
  error_if-nil false e = (λ h. refl, λ h. refl)

  pub append-nil_iff : (xs ys : List E) → (xs ++ ys ≡ []) ↔ ((xs ≡ []) × (ys ≡ []))
  append-nil_iff [] ys = (λ h. (refl, h), λ h. h.1)
  append-nil_iff (x ∷ xs) ys = (λ h. cc, λ h. cc)
