-- ===== src/Shared/Ordered.antt =====
-- Strict orders, as Python's `<` compares: the lexicographic order of texts and of pairs, and `max`.
use Prim.Native.Nat.{ℕ}
use mathlib.Core.Path.{◌≡◌, refl}
use mathlib.Core.Logic.{inl, inr}
use mathlib.Core.Bool.{Bool, true, false, ◌||◌, ◌&&◌, not}
use mathlib.Core.List.{List, [], ◌∷◌, Memᴰ}
use mathlib.Core.List.Memᴰ
use native.Mathlib.Omega.{arith}
use cloud_in_a_bottle.Shared.Checks.{if◌then◌else◌, Bool-cases, ltb, leb}

-- A strict order whose incomparable elements are one class.
pub record Order {ℓ} (K : Type ℓ) : Type ℓ where
  pub lt : K → K → Bool
  pub lt_asymm : (x y : K) → lt x y ≡ true → lt y x ≡ false
  pub lt_split : (x y z : K) → lt x z ≡ true → (lt x y || lt y z) ≡ true

-- `a < b` on texts.
abbrev pub text_lt : List ℕ → List ℕ → Bool
text_lt xs [] = false
text_lt [] (y ∷ ys) = true
text_lt (x ∷ xs) (y ∷ ys) = if ltb x y then true else leb x y && text_lt xs ys

pub text_lt_asymm : (xs ys : List ℕ) → text_lt xs ys ≡ true → text_lt ys xs ≡ false
text_lt_asymm xs [] h = ground arith
text_lt_asymm [] (y ∷ ys) h = refl
text_lt_asymm (x ∷ xs) (y ∷ ys) h = ground (arith, text_lt_asymm xs ys)

pub text_lt_split :
    (xs ys zs : List ℕ) → text_lt xs zs ≡ true → (text_lt xs ys || text_lt ys zs) ≡ true
text_lt_split xs ys [] h = ground arith
text_lt_split [] [] (z ∷ zs) h = refl
text_lt_split [] (y ∷ ys) (z ∷ zs) h = refl
text_lt_split (x ∷ xs) [] (z ∷ zs) h = refl
text_lt_split (x ∷ xs) (y ∷ ys) (z ∷ zs) h = ground (arith, text_lt_split xs ys zs)

instance abbrev pub Text_order : Order (List ℕ)
Text_order = record { lt = text_lt; lt_asymm = text_lt_asymm; lt_split = text_lt_split }

module _ {ℓ} {K : Type ℓ} ⦃by_order : Order K⦄ where
  abbrev pub lt : K → K → Bool
  lt = by_order.lt

  -- `max` of `best` and the rest: the first of the greatest.
  abbrev pub max_from {κ} : {A : Type κ} → (A → K) → A → List A → A
  max_from key best [] = best
  max_from key best (x ∷ xs) =
      if lt (key best) (key x) then max_from key x xs else max_from key best xs

  lt_irrefl : (x : K) → lt x x ≡ false
  lt_irrefl x = elim (Bool-cases (lt x x)) [ inl h ↦ by_order.lt_asymm x x h | inr h ↦ h ]

  -- Nothing in the list, nor the start, passes the greatest.
  pub max_from-le {κ} :
      {A : Type κ} (key : A → K) (best : A) (xs : List A) (bound : K)
      → lt (key (max_from key best xs)) bound ≡ true
      → lt (key best) bound ≡ true
  max_from-le key best [] bound h = h
  max_from-le key best (x ∷ xs) bound h = ground (
    arith,
    max_from-le key x xs bound,
    max_from-le key best xs bound,
    by_order.lt_split (key best) bound (key x),
    by_order.lt_asymm (key x) bound,
  )

  pub max_from-mem {κ} :
      {A : Type κ} (key : A → K) (best : A) (xs : List A) → Memᴰ (max_from key best xs) (best ∷ xs)
  max_from-mem key best [] = Memᴰ.head refl
  max_from-mem key best (x ∷ xs) = elim (Bool-cases (lt (key best) (key x))) [
    | inl h ↦ rw h (Memᴰ.tail (max_from-mem key x xs))
    | inr h ↦ rw h (elim (max_from-mem key best xs) [
      | Memᴰ.head e ↦ Memᴰ.head e
      | Memᴰ.tail m ↦ Memᴰ.tail (Memᴰ.tail m)
    ])
  ]

  max_from-bounds {κ} :
      {A : Type κ} (key : A → K) (best : A) (xs : List A) (y : A)
      → Memᴰ y xs
      → lt (key (max_from key best xs)) (key y) ≡ false
  max_from-bounds key best [] y m = absurd (Memᴰ.not-nil m)
  max_from-bounds key best (x ∷ xs) y (Memᴰ.head e) = rw e (
      ground
        (arith, max_from-le key x xs (key x), max_from-le key best xs (key x), lt_irrefl (key x)))
  max_from-bounds key best (x ∷ xs) y (Memᴰ.tail m) =
      ground (arith, max_from-bounds key x xs y m, max_from-bounds key best xs y m)

  -- No element of the list is greater than the greatest.
  pub max_from-greatest {κ} :
      {A : Type κ} (key : A → K) (best : A) (xs : List A) (y : A)
      → Memᴰ y (best ∷ xs)
      → lt (key (max_from key best xs)) (key y) ≡ false
  max_from-greatest key best xs y (Memᴰ.head e) =
      rw e (ground (arith, max_from-le key best xs (key best), lt_irrefl (key best)))
  max_from-greatest key best xs y (Memᴰ.tail m) = max_from-bounds key best xs y m

-- Tuples: the second components decide where the first ones are equal, which they are when neither is
-- less.
module _ {ℓ κ} {K : Type ℓ} {L : Type κ} ⦃on_first : Order K⦄ ⦃on_second : Order L⦄ where
  abbrev pub pair_lt : K × L → K × L → Bool
  pair_lt (a, x) (b, y) = if lt a b then true else not (lt b a) && lt x y

  pub pair_lt_asymm : (p q : K × L) → pair_lt p q ≡ true → pair_lt q p ≡ false
  pair_lt_asymm (a, x) (b, y) h = ground (arith, on_first.lt_asymm a b, on_second.lt_asymm x y)

  pub pair_lt_split : (p q r : K × L) → pair_lt p r ≡ true → (pair_lt p q || pair_lt q r) ≡ true
  pair_lt_split (a, x) (b, y) (c, z) h = ground (
    arith,
    on_first.lt_split a b c,
    on_first.lt_split c b a,
    on_first.lt_split b a c,
    on_first.lt_split a c b,
    on_first.lt_split c a b,
    on_first.lt_split b c a,
    on_first.lt_asymm a b,
    on_first.lt_asymm b c,
    on_first.lt_asymm a c,
    on_second.lt_split x y z,
  )

  instance abbrev pub Pair_order : Order (K × L)
  Pair_order = record { lt = pair_lt; lt_asymm = pair_lt_asymm; lt_split = pair_lt_split }
