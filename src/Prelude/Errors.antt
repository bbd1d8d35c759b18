-- ===== src/Prelude/Errors.antt =====
-- A Go `error` result: `none` is nil. A chain of early returns is a `do` block of refusals.
use mathlib.Core.Path.{◌≡◌, refl}
use mathlib.Core.Bool.{Bool, true, false}
use mathlib.Core.Logic.{◌↔◌}
use native.Mathlib.Omega.{arith}
use mathlib.Core.Option.{Option, none, some}

module _ {ℓ} {E : Type ℓ} where
  -- `if test { return err }`
  abbrev pub refuse : Bool → E → Option E
  refuse true e = some e
  refuse false e = none

  infixl 5 ◌>>◌
  -- The statements after an early return run only when nothing was returned.
  abbrev pub ◌>>◌ : Option E → Option E → Option E
  none >> k = k
  some e >> k = some e

  -- `err == nil`
  abbrev pub is_nil : Option E → Bool
  is_nil none = true
  is_nil (some e) = false

  -- A chain passes exactly when each of its parts does.
  pub >>-eq-none : (a b : Option E) → ((a >> b) ≡ none) ↔ ((a ≡ none) × (b ≡ none))
  >>-eq-none none b = (λ h. (refl, h), λ h. h.1)
  >>-eq-none (some e) b = ground arith

  -- A chain fails if one of its parts does.
  pub >>-eq-some : (a b : Option E) {e : E} → b ≡ some e → (x : E) × ((a >> b) ≡ some x)
  >>-eq-some none b {e} h = (e, h)
  >>-eq-some (some x) b h = (x, refl)

  pub refuse-eq-none : (b : Bool) (e : E) → (refuse b e ≡ none) ↔ (b ≡ false)
  refuse-eq-none true e = ground arith
  refuse-eq-none false e = ground arith
