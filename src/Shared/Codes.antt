-- ===== src/Shared/Codes.antt =====
-- Python text that the program walks: a list of code points. What it does with a text is modelled for
-- ASCII, which host names and paths are.
use Prim.Native.Nat.{ℕ, suc, zero, ◌+◌, ◌-◌}
use Prim.Native.Char.{code}
use Prim.Native.String.{String}
use mathlib.Core.List.{Memᴰ}
use mathlib.Core.List.Memᴰ
use mathlib.Core.Path.{subst, ◌≡◌, refl, ap, sym, ◌∙◌}
use mathlib.Core.Bool.{Bool, true, ◌&&◌}
use mathlib.Core.List.{List, [], ◌∷◌, ◌++◌, map}
use native.Mathlib.Omega.{arith}
use mathlib.Core.Logic.{inl, inr}
use cloud_in_a_bottle.Shared.Checks.{
  Bool-cases, leb, if◌then◌else◌, ◌==◌, ==_iff, ==_refl, List_eq, ℕ_eq,
}
use cloud_in_a_bottle.Shared.Lists.{length, length-append}

abbrev pub Text : Type 0
Text = List ℕ

abbrev pub codes : String → Text
codes String.[] = []
codes (String.◌∷◌ c s) = code c ∷ codes s

abbrev pub lower_char : ℕ → ℕ
lower_char c = if leb b'A' c && leb c b'Z' then c + 32 else c

-- `s.lower()`, of a text whose letters are ASCII
unfoldable pub lower : Text → Text
lower = map lower_char

-- `s.split(sep)[0]`
unfoldable pub before : ℕ → Text → Text
before sep [] = []
before sep (c ∷ s) = if c == sep then [] else c ∷ before sep s

-- `s.split(sep)`, and `sep.join(parts)`.
abbrev pub before_first : ℕ → List Text → List Text
before_first c [] = (c ∷ []) ∷ []
before_first c (part ∷ parts) = (c ∷ part) ∷ parts

unfoldable pub split : ℕ → Text → List Text
split sep [] = [] ∷ []
split sep (c ∷ s) = let parts = split sep s in if c == sep then [] ∷ parts else before_first c parts

unfoldable pub join : ℕ → List Text → Text
join sep [] = []
join sep (part ∷ []) = part
join sep (part ∷ next ∷ parts) = part ++ sep ∷ join sep (next ∷ parts)

module _ {ℓ} {A : Type ℓ} where
  abbrev pub take : ℕ → List A → List A
  take zero xs = []
  take (suc n) [] = []
  take (suc n) (x ∷ xs) = x ∷ take n xs

  abbrev pub drop : ℕ → List A → List A
  drop zero xs = xs
  drop (suc n) [] = []
  drop (suc n) (x ∷ xs) = drop n xs

  pub take-append : (xs ys : List A) → take (length xs) (xs ++ ys) ≡ xs
  take-append [] ys = refl
  take-append (x ∷ xs) ys = ap (◌∷◌ x) (take-append xs ys)

  pub drop-append : (xs ys : List A) → drop (length xs) (xs ++ ys) ≡ ys
  drop-append [] ys = refl
  drop-append (x ∷ xs) ys = drop-append xs ys

  pub take-append-drop : (n : ℕ) (xs : List A) → take n xs ++ drop n xs ≡ xs
  take-append-drop zero xs = refl
  take-append-drop (suc n) [] = refl
  take-append-drop (suc n) (x ∷ xs) = ap (◌∷◌ x) (take-append-drop n xs)

  drop-nil : (n : ℕ) → drop n [] ≡ []
  drop-nil zero = refl
  drop-nil (suc n) = refl

  pub drop-add : (m n : ℕ) (xs : List A) → drop (m + n) xs ≡ drop n (drop m xs)
  drop-add zero n xs = let e : 0 + n ≡ n = omega arith in rw e refl
  drop-add (suc m) n [] = let e : suc m + n ≡ suc (m + n) = omega arith in rw e (sym (drop-nil n))
  drop-add (suc m) n (x ∷ xs) =
      let e : suc m + n ≡ suc (m + n) = omega arith in rw e (drop-add m n xs)

  -- What is left after what was read.
  pub drop-add-length :
      (m : ℕ) (buf xs ys : List A) → drop m buf ≡ xs ++ ys → drop (m + length xs) buf ≡ ys
  drop-add-length m buf xs ys h =
      drop-add m (length xs) buf ∙ ap (drop (length xs)) h ∙ drop-append xs ys

  pub drop-eq-cons :
      (m : ℕ) (buf : List A) (x : A) (xs : List A)
      → drop m buf ≡ x ∷ xs
      → m + (1 + length xs) ≡ length buf
  drop-eq-cons zero [] x xs h = absurd (Memᴰ.not-nil (subst (Memᴰ x) (sym h) (Memᴰ.head refl)))
  drop-eq-cons zero (y ∷ ys) x xs h = omega (arith, ap length (sym h))
  drop-eq-cons (suc m) [] x xs h = absurd (Memᴰ.not-nil (subst (Memᴰ x) (sym h) (Memᴰ.head refl)))
  drop-eq-cons (suc m) (y ∷ ys) x xs h = omega (arith, drop-eq-cons m ys x xs h)

-- `s.endswith(suffix)`
unfoldable pub ends_with : Text → Text → Bool
ends_with suffix s = leb (length suffix) (length s) && (drop (length s - length suffix) s == suffix)

pub ends_with-append : (prefix suffix : Text) → ends_with suffix (prefix ++ suffix) ≡ true
unfolding ends_with
ends_with-append prefix suffix =
    let n : length (prefix ++ suffix) - length suffix ≡ length prefix =
      omega (arith, length-append prefix suffix) in
    rw (n, drop-append prefix suffix) (ground (arith, length-append prefix suffix, ==_refl suffix))

-- A text that ends with `suffix` is what stands before it, and `suffix`.
pub append_of_ends_with :
    (suffix s : Text) → ends_with suffix s ≡ true → take (length s - length suffix) s ++ suffix ≡ s
unfolding ends_with
append_of_ends_with suffix s h =
    let e : drop (length s - length suffix) s ≡ suffix =
      (==_iff (drop (length s - length suffix) s) suffix).0 (ground arith) in
    ap (λ t. take (length s - length suffix) s ++ t) (sym e)
    ∙ take-append-drop (length s - length suffix) s

join-before_first :
    (sep c : ℕ) (parts : List Text) → join sep (before_first c parts) ≡ c ∷ join sep parts
unfolding join
join-before_first sep c [] = refl
join-before_first sep c (part ∷ []) = refl
join-before_first sep c (part ∷ next ∷ parts) = refl

split-cons :
    (sep : ℕ) (s : Text) → (part : Text) × (parts : List Text) × (split sep s ≡ part ∷ parts)
unfolding split
split-cons sep [] = ([], [], refl)
split-cons sep (c ∷ s) =
    let (part, parts, e) = split-cons sep s in
    elim (Bool-cases (c == sep)) [
      | inl here ↦ ([], split sep s, rw here refl)
      | inr later ↦ (c ∷ part, parts, rw (later, e) refl)
    ]

pub join-split : (sep : ℕ) (s : Text) → join sep (split sep s) ≡ s
unfolding join split
join-split sep [] = refl
join-split sep (c ∷ s) =
    let (part, parts, e) = split-cons sep s in
    elim (Bool-cases (c == sep)) [
      | inl here ↦
          rw (here, e, (==_iff c sep).0 here)
            (ap (◌∷◌ sep) (ap (join sep) (sym e) ∙ join-split sep s))
      | inr later ↦ rw later (join-before_first sep c (split sep s) ∙ ap (◌∷◌ c) (join-split sep s))
    ]
