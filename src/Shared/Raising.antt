-- ===== src/Shared/Raising.antt =====
-- A call that returns or raises: the exception, or the value.
use mathlib.Core.Path.{◌≡◌, refl, ap, ◌∙◌}
use mathlib.Core.Logic.{◌↔◌}
use mathlib.Core.Bool.{Bool, true, false}
use mathlib.Core.Option.{Option, none, some}
use native.Mathlib.Omega.{arith}

pub data Result {ℓ κ} (E : Type ℓ) (V : Type κ) : Type (ℓ ⊔ κ) where
  raise : E → Result E V
  ok : V → Result E V

pub ok-inj {ℓ κ} : {E : Type ℓ} {V : Type κ} {v w : V} → ◌≡◌ {A = Result E V} (ok v) (ok w) → v ≡ w
ok-inj returned = cc

module _ {ℓ κ μ} {E : Type ℓ} {V : Type κ} {W : Type μ} where
  infixl 5 ◌>>=◌
  -- What follows a call that may raise.
  abbrev pub ◌>>=◌ : Result E V → (V → Result E W) → Result E W
  raise exception >>= next = raise exception
  ok value >>= next = next value

  -- A chain that returns had a first call that returned.
  pub bind-eq-ok :
      (call : Result E V) (next : V → Result E W) {w : W}
      → (call >>= next) ≡ ok w
      → (v : V) × (call ≡ ok v) × (next v ≡ ok w)
  bind-eq-ok (raise exception) next returned = cc
  bind-eq-ok (ok value) next returned = (value, refl, returned)

  -- Two chains go on alike where what follows is alike.
  pub bind-congr :
      (call : Result E V) (f g : V → Result E W)
      → ((v : V) → f v ≡ g v)
      → (call >>= f) ≡ (call >>= g)
  bind-congr (raise exception) f g same = refl
  bind-congr (ok value) f g same = same value

-- A test that raises where it fails.
abbrev pub require {ℓ} : {E : Type ℓ} → Bool → E → Result E (Unit {0})
require true why = ok tt
require false why = raise why

module _ {ℓ κ} {E : Type ℓ} {W : Type κ} where
  infixl 5 ◌>>◌
  abbrev pub ◌>>◌ : Result E (Unit {0}) → Result E W → Result E W
  raise exception >> next = raise exception
  ok value >> next = next

  -- A chain that starts with a test returns exactly when the test holds and what follows returns.
  pub require_iff :
      (b : Bool) (why : E) (next : Result E W) {w : W}
      → ((require b why >> next) ≡ ok w) ↔ ((b ≡ true) × (next ≡ ok w))
  require_iff true why next = (λ h. (refl, h), λ h. h.1)
  require_iff false why next = (λ h. absurd (ground arith), λ h. absurd (ground arith))

-- A value that may be missing.
abbrev pub required {ℓ κ} : {E : Type ℓ} {V : Type κ} → Option V → E → Result E V
required none why = raise why
required (some value) why = ok value

pub required-bind_iff {ℓ κ μ} :
    {E : Type ℓ} {V : Type κ} {W : Type μ} (o : Option V) (why : E) (next : V → Result E W) {w : W}
    → ((required o why >>= next) ≡ ok w) ↔ ((v : V) × (o ≡ some v) × (next v ≡ ok w))
required-bind_iff none why next = (λ h. absurd (ground arith), λ h. absurd (ground arith))
required-bind_iff (some v) why next =
    (λ h. (v, refl, h), λ (u, e, h). let same : v ≡ u = ground arith in ap next same ∙ h)
