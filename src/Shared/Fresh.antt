-- ===== src/Shared/Fresh.antt =====
-- A loop that refuses what it has seen already, and remembers the rest, accepts the lists without
-- duplicates.
use mathlib.Core.Path.{◌≡◌, refl}
use mathlib.Core.Logic.{◌↔◌}
use mathlib.Core.Bool.{false}
use mathlib.Core.List.{List, [], ◌∷◌}
use native.Mathlib.Omega.{arith}
use cloud_in_a_bottle.Shared.Checks.{Eq, ==_sym}
use cloud_in_a_bottle.Shared.Lists.{elem, All, Distinct}

module _ {ℓ} {A : Type ℓ} ⦃e : Eq A⦄ where
  -- Each element is new when the loop meets it.
  abbrev pub FreshFrom : List A → List A → Type 0
  FreshFrom seen [] = Unit
  FreshFrom seen (x ∷ xs) = (elem x seen ≡ false) × FreshFrom (x ∷ seen) xs

  abbrev NoneIn : List A → List A → Type 0
  NoneIn seen xs = All (λ x. elem x seen ≡ false) xs

  NoneIn-cons_iff :
      (x : A) (seen xs : List A) → NoneIn (x ∷ seen) xs ↔ ((elem x xs ≡ false) × NoneIn seen xs)
  NoneIn-cons_iff x seen [] = (λ _. (refl, tt), λ _. tt)
  NoneIn-cons_iff x seen (y ∷ ys) =
      ground (arith, NoneIn-cons_iff x seen ys, ==_sym x y, ==_sym y x)

  FreshFrom-NoneIn : (seen xs : List A) → FreshFrom seen xs ↔ (NoneIn seen xs × Distinct xs)
  FreshFrom-NoneIn seen [] = (λ _. (tt, tt), λ _. tt)
  FreshFrom-NoneIn seen (x ∷ xs) =
      ground (arith, FreshFrom-NoneIn (x ∷ seen) xs, NoneIn-cons_iff x seen xs)

  NoneIn-nil : (xs : List A) → NoneIn [] xs
  NoneIn-nil [] = tt
  NoneIn-nil (x ∷ xs) = (refl, NoneIn-nil xs)

  pub FreshFrom-nil_iff : (xs : List A) → FreshFrom [] xs ↔ Distinct xs
  FreshFrom-nil_iff xs =
      (λ h. ((FreshFrom-NoneIn [] xs).0 h).1, λ d. (FreshFrom-NoneIn [] xs).1 (NoneIn-nil xs, d))
