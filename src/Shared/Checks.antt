-- ===== src/Shared/Checks.antt =====
-- Boolean tests, the conditional, and the equality test of Python's `==` as an interface.
use Prim.Native.Nat.{ℕ, compare, Ordering}
use Prim.Native.String.{String}
use mathlib.Core.Path.{◌≡◌, refl}
use mathlib.Core.Logic.{◌↔◌, ◌⊎◌, inl, inr}
use mathlib.Core.Bool.{Bool, true, false, ◌&&◌, not}
use mathlib.Core.Option.{Option, none, some}
use mathlib.Core.List.{List, [], ◌∷◌}
use native.Mathlib.Omega.{arith}
use text.Mathlib.Text.{◌==◌ as str_eq}
use text.Mathlib.TextEquality.{eq_iff}

abbrev pub ltb : ℕ → ℕ → Bool
ltb a b = elim (compare a b) [ Ordering.lt ↦ true | _ ↦ false ]

abbrev pub leb : ℕ → ℕ → Bool
leb a b = elim (compare a b) [ Ordering.gt ↦ false | _ ↦ true ]

abbrev nat_eq : ℕ → ℕ → Bool
nat_eq a b = elim (compare a b) [ Ordering.eq ↦ true | _ ↦ false ]

infix 1 if◌then◌else◌
abbrev pub if◌then◌else◌ {ℓ} : {A : Type ℓ} → Bool → A → A → A
if true then x else y = x
if false then x else y = y

pub nat_eq_iff : (a b : ℕ) → (nat_eq a b ≡ true) ↔ (a ≡ b)
nat_eq_iff a b = ground arith

pub Bool-cases : (b : Bool) → (b ≡ true) ⊎ (b ≡ false)
Bool-cases true = inl refl
Bool-cases false = inr refl

-- What holds of both branches holds of the conditional.
pub on_branches {ℓ κ} :
    {A : Type ℓ} (P : A → Type κ) (b : Bool) {x y : A} → P x → P y → P (if b then x else y)
on_branches P true px py = px
on_branches P false px py = py

pub not_true : (b : Bool) → (b ≡ true → false ≡ true) → b ≡ false
not_true b h = ground arith

pub false_of_not : (b : Bool) → not b ≡ true → b ≡ false
false_of_not b h = ground arith

pub Option-cases {ℓ} : {A : Type ℓ} (o : Option A) → (o ≡ none) ⊎ ((a : A) × (o ≡ some a))
Option-cases none = inl refl
Option-cases (some a) = inr (a, refl)

-- A type whose values Python's `==` compares.
pub record Eq {ℓ} (K : Type ℓ) : Type ℓ where
  pub same : K → K → Bool
  pub same_iff : (x y : K) → (same x y ≡ true) ↔ (x ≡ y)

instance abbrev pub ℕ_eq : Eq ℕ
ℕ_eq = record { same = nat_eq; same_iff = nat_eq_iff }

instance abbrev pub String_eq : Eq String
String_eq = record { same_iff = eq_iff; same = str_eq }

module _ {ℓ} {K : Type ℓ} ⦃by_eq : Eq K⦄ where
  infix 50 ◌==◌
  abbrev pub ◌==◌ : K → K → Bool
  ◌==◌ = by_eq.same

  pub ==_iff : (x y : K) → ((x == y) ≡ true) ↔ (x ≡ y)
  ==_iff = by_eq.same_iff

  pub ==_refl : (x : K) → (x == x) ≡ true
  ==_refl x = (by_eq.same_iff x x).1 refl

  pub ==_sym : (x y : K) → (x == y) ≡ false → (y == x) ≡ false
  ==_sym x y h = ground (arith, ==_iff x y, ==_iff y x)

abbrev pub list_eq : List ℕ → List ℕ → Bool
list_eq [] [] = true
list_eq [] (y ∷ ys) = false
list_eq (x ∷ xs) [] = false
list_eq (x ∷ xs) (y ∷ ys) = nat_eq x y && list_eq xs ys

pub list_eq_iff : (xs ys : List ℕ) → (list_eq xs ys ≡ true) ↔ (xs ≡ ys)
list_eq_iff [] [] = (λ _. refl, λ _. refl)
list_eq_iff [] (y ∷ ys) = ground arith
list_eq_iff (x ∷ xs) [] = ground arith
list_eq_iff (x ∷ xs) (y ∷ ys) = ground (arith, nat_eq_iff x y, list_eq_iff xs ys)

instance abbrev pub List_eq : Eq (List ℕ)
List_eq = record { same = list_eq; same_iff = list_eq_iff }

-- `a == b` on an optional value: `None` is equal to `None` alone.
abbrev pub opt_eq {ℓ} : {A : Type ℓ} ⦃e : Eq A⦄ → Option A → Option A → Bool
opt_eq none none = true
opt_eq none (some b) = false
opt_eq (some a) none = false
opt_eq (some a) (some b) = a == b

abbrev pub is_some {ℓ} : {A : Type ℓ} → Option A → Bool
is_some none = false
is_some (some a) = true

-- `if x := ...:` in front of what may give nothing.
abbrev pub when_set {ℓ κ} : {A : Type ℓ} {B : Type κ} → Option A → (A → Option B) → Option B
when_set none f = none
when_set (some a) f = f a

pub when_set-eq-some {ℓ κ} :
    {A : Type ℓ} {B : Type κ} (o : Option A) (f : A → Option B) (b : B)
    → when_set o f ≡ some b
    → (a : A) × (o ≡ some a) × (f a ≡ some b)
when_set-eq-some none f b h = cc
when_set-eq-some (some a) f b h = (a, refl, h)
