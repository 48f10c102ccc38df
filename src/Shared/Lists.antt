-- ===== src/Shared/Lists.antt =====
-- Lists over the native numbers, with Boolean predicates: what the source's comprehensions and SQL
-- queries do.
use Prim.Native.Nat.{ℕ, zero, suc, ◌+◌, ◌≤◌}
use mathlib.Core.Path.{◌≡◌, refl, sym, subst, ap, ◌∙◌}
use mathlib.Core.Logic.{◌↔◌, ◌⊎◌, inl, inr, ◌≢◌}
use mathlib.Core.Bool.{Bool, true, false, ◌||◌, ◌&&◌}
use mathlib.Core.Option.{Option, none, some}
use mathlib.Core.List.{List, [], ◌∷◌, ◌++◌, map, Memᴰ}
use mathlib.Core.List.Memᴰ
use native.Mathlib.Omega.{arith}
use cloud_in_a_bottle.Shared.Checks.{if◌then◌else◌, Eq, ◌==◌, ==_iff, Bool-cases}

-- `range(start, start + n)`.
abbrev pub range_from : ℕ → ℕ → List ℕ
range_from start zero = []
range_from start (suc n) = start ∷ range_from (start + 1) n

module _ {ℓ} {A : Type ℓ} where
  abbrev pub length : List A → ℕ
  length [] = 0
  length (x ∷ xs) = suc (length xs)

  -- The first element with the property: `fetchone` of a query.
  abbrev pub find? : (A → Bool) → List A → Option A
  find? p [] = none
  find? p (x ∷ xs) = if p x then some x else find? p xs

  abbrev pub any : (A → Bool) → List A → Bool
  any p [] = false
  any p (x ∷ xs) = p x || any p xs

  abbrev pub all : (A → Bool) → List A → Bool
  all p [] = true
  all p (x ∷ xs) = p x && all p xs

  abbrev pub filter : (A → Bool) → List A → List A
  filter p [] = []
  filter p (x ∷ xs) = if p x then x ∷ filter p xs else filter p xs

  abbrev pub count : (A → Bool) → List A → ℕ
  count p [] = 0
  count p (x ∷ xs) = if p x then suc (count p xs) else count p xs

  -- `ORDER BY`, and `sorted`.
  abbrev pub insert_by : (A → A → Bool) → A → List A → List A
  insert_by le x [] = x ∷ []
  insert_by le x (y ∷ ys) = if le x y then x ∷ y ∷ ys else y ∷ insert_by le x ys

  abbrev pub sort_by : (A → A → Bool) → List A → List A
  sort_by le [] = []
  sort_by le (x ∷ xs) = insert_by le x (sort_by le xs)

  pub length-append : (xs ys : List A) → length (xs ++ ys) ≡ length xs + length ys
  length-append [] ys = omega arith
  length-append (x ∷ xs) ys = omega (arith, length-append xs ys)

pub mem-cons {ℓ} :
    {A : Type ℓ} (a : A) {x : A} (xs : List A) → Memᴰ a (x ∷ xs) → (a ≡ x) ⊎ Memᴰ a xs
mem-cons a xs (Memᴰ.head e) = inl e
mem-cons a xs (Memᴰ.tail m) = inr m

pub length-map {ℓ κ} :
    {A : Type ℓ} {B : Type κ} (f : A → B) (xs : List A) → length (map f xs) ≡ length xs
length-map f [] = refl
length-map f (x ∷ xs) = ap suc (length-map f xs)

module _ {ℓ κ} {A : Type ℓ} (P : A → Type κ) where
  abbrev pub All : List A → Type κ
  All [] = Unit
  All (x ∷ xs) = P x × All xs

  pub All-mem : {a : A} (xs : List A) → All xs → Memᴰ a xs → P a
  All-mem [] h m = absurd (Memᴰ.not-nil m)
  All-mem (x ∷ xs) (px, h) (Memᴰ.head e) = subst P (sym e) px
  All-mem (x ∷ xs) (px, h) (Memᴰ.tail m) = All-mem xs h m

  pub All-of_mem : (xs : List A) → ((a : A) → Memᴰ a xs → P a) → All xs
  All-of_mem [] h = tt
  All-of_mem (x ∷ xs) h = (h x (Memᴰ.head refl), All-of_mem xs (λ a m. h a (Memᴰ.tail m)))

  pub All-append : (xs ys : List A) → All xs → All ys → All (xs ++ ys)
  All-append [] ys h k = k
  All-append (x ∷ xs) ys (px, h) k = (px, All-append xs ys h k)

-- By the two branches of a conditional list.
pub All-if {ℓ κ} :
    {A : Type ℓ} (P : A → Type κ) (b : Bool) (xs ys : List A)
    → (b ≡ true → All P xs)
    → (b ≡ false → All P ys)
    → All P (if b then xs else ys)
All-if P true xs ys yes' no' = yes' refl
All-if P false xs ys yes' no' = no' refl

pub All-map {ℓ κ μ} :
    {A : Type ℓ} {P : A → Type κ} {Q : A → Type μ}
    → ((a : A) → P a → Q a)
    → (xs : List A) → All P xs
    → All Q xs
All-map f [] h = tt
All-map f (x ∷ xs) (px, h) = (f x px, All-map f xs h)

module _ {ℓ} {A : Type ℓ} (p : A → Bool) where
  pub find?-eq-some : (xs : List A) (a : A) → find? p xs ≡ some a → Memᴰ a xs × (p a ≡ true)
  find?-eq-some [] a h = cc
  find?-eq-some (x ∷ xs) a h = elim (Bool-cases (p x)) [
    | inl here ↦ let e : a ≡ x = ground arith in (Memᴰ.head e, rw e here)
    | inr off ↦ let (m, holds) = find?-eq-some xs a (ground arith) in (Memᴰ.tail m, holds)
  ]

  pub find?-eq-none_iff : (xs : List A) → (find? p xs ≡ none) ↔ All (λ x. p x ≡ false) xs
  find?-eq-none_iff [] = (λ _. tt, λ _. refl)
  find?-eq-none_iff (x ∷ xs) = ground (arith, find?-eq-none_iff xs)

  pub any-eq-false_iff : (xs : List A) → (any p xs ≡ false) ↔ All (λ x. p x ≡ false) xs
  any-eq-false_iff [] = (λ _. tt, λ _. refl)
  any-eq-false_iff (x ∷ xs) = ground (arith, any-eq-false_iff xs)

module _ {ℓ} {A : Type ℓ} (p : A → Bool) where
  pub mem_of_filter : (xs : List A) (a : A) → Memᴰ a (filter p xs) → Memᴰ a xs × (p a ≡ true)
  mem_of_filter [] a m = absurd (Memᴰ.not-nil m)
  mem_of_filter (x ∷ xs) a m = elim (Bool-cases (p x)) [
    | inr off ↦ let (later, holds) = mem_of_filter xs a (rw off at m) in (Memᴰ.tail later, holds)
    | inl here ↦ elim (rw here at m) [
      | Memᴰ.head e ↦ (Memᴰ.head e, ap p e ∙ here)
      | Memᴰ.tail n ↦ let (later, holds) = mem_of_filter xs a n in (Memᴰ.tail later, holds)
    ]
  ]

  pub filter-append : (xs ys : List A) → filter p (xs ++ ys) ≡ filter p xs ++ filter p ys
  filter-append [] ys = refl
  filter-append (x ∷ xs) ys = ground (arith, filter-append xs ys)

  pub filter-eq_self : (xs : List A) → All (λ x. p x ≡ true) xs → filter p xs ≡ xs
  filter-eq_self [] h = refl
  filter-eq_self (x ∷ xs) (px, h) = ground (arith, filter-eq_self xs h)

  pub filter-eq-nil : (xs : List A) → All (λ x. p x ≡ false) xs → filter p xs ≡ []
  filter-eq-nil [] h = refl
  filter-eq-nil (x ∷ xs) (px, h) = ground (arith, filter-eq-nil xs h)

  pub All-filter {κ} : (P : A → Type κ) (xs : List A) → All P xs → All P (filter p xs)
  All-filter P [] h = tt
  All-filter P (x ∷ xs) (px, h) = elim (Bool-cases (p x)) [
    | inl here ↦ rw here (px, All-filter P xs h)
    | inr off ↦ rw off (All-filter P xs h)
  ]

  pub filter_of_mem : (xs : List A) (a : A) → Memᴰ a xs → p a ≡ true → Memᴰ a (filter p xs)
  filter_of_mem [] a m holds = absurd (Memᴰ.not-nil m)
  filter_of_mem (x ∷ xs) a (Memᴰ.head e) holds = rw (sym (ap p e) ∙ holds) (Memᴰ.head e)
  filter_of_mem (x ∷ xs) a (Memᴰ.tail m) holds = elim (Bool-cases (p x)) [
    | inl here ↦ rw here (Memᴰ.tail (filter_of_mem xs a m holds))
    | inr off ↦ rw off (filter_of_mem xs a m holds)
  ]

module _ {ℓ} {A : Type ℓ} (p : A → Bool) where
  pub count_of_mem : (xs : List A) (a : A) → Memᴰ a xs → p a ≡ true → 1 ≤ count p xs
  count_of_mem [] a m h = absurd (Memᴰ.not-nil m)
  count_of_mem (x ∷ xs) a (Memᴰ.head e) h = rw (sym (ap p e) ∙ h) (omega arith)
  count_of_mem (x ∷ xs) a (Memᴰ.tail m) h = ground (arith, count_of_mem xs a m h)

  -- Of two elements with the property in a list that counts one, each is the other.
  pub eq_of_count :
      (xs : List A) (a b : A)
      → count p xs ≤ 1
      → Memᴰ a xs
      → Memᴰ b xs
      → p a ≡ true
      → p b ≡ true
      → a ≡ b
  eq_of_count [] a b one ma mb ha hb = absurd (Memᴰ.not-nil ma)
  eq_of_count (x ∷ xs) a b one (Memᴰ.head e) (Memᴰ.head f) ha hb = e ∙ sym f
  eq_of_count (x ∷ xs) a b one (Memᴰ.head e) (Memᴰ.tail m) ha hb =
      let here : p x ≡ true = sym (ap p e) ∙ ha in absurd (ground (arith, count_of_mem xs b m hb))
  eq_of_count (x ∷ xs) a b one (Memᴰ.tail m) (Memᴰ.head f) ha hb =
      let here : p x ≡ true = sym (ap p f) ∙ hb in absurd (ground (arith, count_of_mem xs a m ha))
  eq_of_count (x ∷ xs) a b one (Memᴰ.tail m) (Memᴰ.tail n) ha hb =
      eq_of_count xs a b (ground arith) m n ha hb

module _ {ℓ} {A : Type ℓ} ⦃e : Eq A⦄ where
  abbrev pub elem : A → List A → Bool
  elem a [] = false
  elem a (x ∷ xs) = a == x || elem a xs

  pub mem_of_elem : (a : A) (xs : List A) → elem a xs ≡ true → Memᴰ a xs
  mem_of_elem a [] h = absurd (mathlib.Core.Bool.false≢true h)
  mem_of_elem a (x ∷ xs) h = elim (Bool-cases (a == x)) [
    | inl here ↦ Memᴰ.head ((==_iff a x).0 here)
    | inr off ↦ Memᴰ.tail (mem_of_elem a xs (ground arith))
  ]

  pub elem_of_mem : (a : A) (xs : List A) → Memᴰ a xs → elem a xs ≡ true
  elem_of_mem a [] m = absurd (Memᴰ.not-nil m)
  elem_of_mem a (x ∷ xs) (Memᴰ.head h) = ground (arith, ==_iff a x)
  elem_of_mem a (x ∷ xs) (Memᴰ.tail m) = ground (arith, elem_of_mem a xs m)

  pub elem-append : (a : A) (xs ys : List A) → elem a (xs ++ ys) ≡ (elem a xs || elem a ys)
  elem-append a [] ys = refl
  elem-append a (x ∷ xs) ys = ground (arith, elem-append a xs ys)

  pub elem-append-eq-false :
      (a : A) (xs ys : List A)
      → elem a (xs ++ ys) ≡ false
      → (elem a xs ≡ false) × (elem a ys ≡ false)
  elem-append-eq-false a xs ys h = ground (arith, elem-append a xs ys)

  abbrev pub Distinct : List A → Type 0
  Distinct [] = Unit
  Distinct (x ∷ xs) = (elem x xs ≡ false) × Distinct xs

  pub Distinct-snoc :
      (xs : List A) (x : A) → Distinct xs → elem x xs ≡ false → Distinct (xs ++ x ∷ [])
  Distinct-snoc [] x d new = (refl, tt)
  Distinct-snoc (y ∷ ys) x (old, d) new = (
    ground (arith, elem-append y ys (x ∷ []), ==_iff x y, ==_iff y x),
    Distinct-snoc ys x d (ground arith),
  )

-- An element of an image is absent exactly when no element is sent to it.
module _ {ℓ κ} {A : Type ℓ} {B : Type κ} ⦃e : Eq B⦄ (f : A → B) where
  pub elem-map_iff : (b : B) (xs : List A) → (elem b (map f xs) ≡ false) ↔ All (λ x. f x ≢ b) xs
  elem-map_iff b [] = (λ _. tt, λ _. refl)
  elem-map_iff b (x ∷ xs) = ground (arith, elem-map_iff b xs, ==_iff b (f x))

pub All-of_all {ℓ} :
    {A : Type ℓ} (p : A → Bool) (xs : List A) → all p xs ≡ true → All (λ x. p x ≡ true) xs
All-of_all p [] h = tt
All-of_all p (x ∷ xs) h = (ground arith, All-of_all p xs (ground arith))

pub All-of_map {ℓ κ μ} :
    {A : Type ℓ} {B : Type κ} (P : B → Type μ) (f : A → B) (xs : List A)
    → All (λ x. P (f x)) xs
    → All P (map f xs)
All-of_map P f [] h = tt
All-of_map P f (x ∷ xs) (px, h) = (px, All-of_map P f xs h)

pub mem-map {ℓ κ} :
    {A : Type ℓ} {B : Type κ} (f : A → B) (xs : List A) (a : A) → Memᴰ a xs → Memᴰ (f a) (map f xs)
mem-map f [] a m = absurd (Memᴰ.not-nil m)
mem-map f (x ∷ xs) a (Memᴰ.head e) = Memᴰ.head (ap f e)
mem-map f (x ∷ xs) a (Memᴰ.tail m) = Memᴰ.tail (mem-map f xs a m)

-- A list has no element, or a first one.
pub List-cases {ℓ} :
    {A : Type ℓ} (xs : List A) → (xs ≡ []) ⊎ ((x : A) × (later : List A) × (xs ≡ x ∷ later))
List-cases [] = inl refl
List-cases (x ∷ xs) = inr (x, xs, refl)

pub cons-inj {ℓ} : {A : Type ℓ} {x y : A} {xs ys : List A} → x ∷ xs ≡ y ∷ ys → xs ≡ ys
cons-inj same = cc
