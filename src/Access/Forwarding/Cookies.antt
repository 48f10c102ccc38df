-- ===== src/Access/Forwarding/Cookies.antt =====
-- The cookies of a Cookie header, as sanitize_forwarded_headers of
-- compute_space/src/compute_space/web/helpers/proxy.py splits and joins them.
use mathlib.Core.Bool.{false≢true}
use mathlib.Core.Path.{subst}
use mathlib.Core.List.{append-nil, append_assoc}
use cloud_in_a_bottle.Shared.{
  ==_iff, ==_refl, All, All-filter, All-map, All-of_map, Bool-cases, List, List-cases, List_eq,
  Text, [], ap, arith, cons-inj, elem, elem-append, false, filter, inl, inr, is_space, lstrip, map,
  not, refl, rstrip, strip, sym, ℕ, ℕ_eq, ◌++◌, ◌==◌, ◌∙◌, ◌∷◌, ◌≡◌,
}
use cloud_in_a_bottle.Access.Forwarding.{split_on, is_session_cookie, join_parts, kept_cookies}

-- The cookies between the semicolons of a value, without the white space around them.
abbrev pub cookies_of : Text → List Text
cookies_of value = map strip (split_on b';' [] value)

abbrev IsCookie : Text → Type 0
IsCookie p = (elem b';' p ≡ false) × (strip p ≡ p)

rstrip-rstrip : (s : Text) → rstrip (rstrip s) ≡ rstrip s
unfolding rstrip
rstrip-rstrip [] = refl
rstrip-rstrip (c ∷ s) = elim (List-cases (rstrip s)) [
  | inl none_left ↦ elim (Bool-cases (is_space c)) [
    | inl space ↦ rw (none_left, space) refl
    | inr letter ↦ rw (none_left, letter) (rw letter refl)
  ]
  | inr (d, ds, e) ↦ rw e (rw (sym (ap rstrip e) ∙ rstrip-rstrip s ∙ e) refl)
]

lstrip-lstrip : (s : Text) → lstrip (lstrip s) ≡ lstrip s
unfolding lstrip
lstrip-lstrip [] = refl
lstrip-lstrip (c ∷ s) = elim (Bool-cases (is_space c)) [
  | inl space ↦ rw space (lstrip-lstrip s)
  | inr letter ↦ rw letter (rw letter refl)
]

rstrip_tail : (c : ℕ) (s : Text) → rstrip (c ∷ s) ≡ c ∷ s → rstrip s ≡ s
unfolding rstrip
rstrip_tail c s h = elim (List-cases (rstrip s)) [
  | inl none_left ↦ elim (Bool-cases (is_space c)) [
    | inl space ↦ absurd (ground arith)
    | inr letter ↦
        let whole : c ∷ [] ≡ c ∷ s = rw (none_left, letter) at h in none_left ∙ cons-inj whole
  ]
  | inr (d, ds, e) ↦ let whole : c ∷ d ∷ ds ≡ c ∷ s = rw e at h in e ∙ cons-inj whole
]

rstrip-lstrip : (s : Text) → rstrip s ≡ s → rstrip (lstrip s) ≡ lstrip s
unfolding lstrip
rstrip-lstrip [] h = h
rstrip-lstrip (c ∷ s) h = elim (Bool-cases (is_space c)) [
  | inl space ↦ rw space (rstrip-lstrip s (rstrip_tail c s h))
  | inr letter ↦ rw letter h
]

strip-strip : (s : Text) → strip (strip s) ≡ strip s
unfolding strip
strip-strip s = ap lstrip (rstrip-lstrip (rstrip s) (rstrip-rstrip s)) ∙ lstrip-lstrip (rstrip s)

strip_space : (s : Text) → strip (b' ' ∷ s) ≡ strip s
unfolding strip rstrip lstrip is_space
strip_space s = elim (List-cases (rstrip s)) [
  | inl none_left ↦ rw none_left refl
  | inr (d, ds, e) ↦ rw e refl
]

elem-rstrip : (c : ℕ) (s : Text) → elem c s ≡ false → elem c (rstrip s) ≡ false
unfolding rstrip
elem-rstrip c [] h = refl
elem-rstrip c (d ∷ s) h =
    let later = elem-rstrip c s (ground arith) in
    elim (List-cases (rstrip s)) [
      | inl none_left ↦ elim (Bool-cases (is_space d)) [
        | inl space ↦ rw (none_left, space) refl
        | inr letter ↦ rw (none_left, letter) (ground arith)
      ]
      | inr (x, xs, e) ↦ rw e (ground (arith, sym (ap (elem c) e) ∙ later))
    ]

elem-lstrip : (c : ℕ) (s : Text) → elem c s ≡ false → elem c (lstrip s) ≡ false
unfolding lstrip
elem-lstrip c [] h = refl
elem-lstrip c (d ∷ s) h = elim (Bool-cases (is_space d)) [
  | inl space ↦ rw space (elem-lstrip c s (ground arith))
  | inr letter ↦ rw letter h
]

elem-strip : (c : ℕ) (s : Text) → elem c s ≡ false → elem c (strip s) ≡ false
unfolding strip
elem-strip c s h = elem-lstrip c (rstrip s) (elem-rstrip c s h)

-- The parts between separators have none.
split_on-All :
    (c : ℕ) (part s : Text) → elem c part ≡ false → All (λ p. elem c p ≡ false) (split_on c part s)
unfolding split_on
split_on-All c part [] h = (h, tt)
split_on-All c part (d ∷ s) h = elim (Bool-cases (d == c)) [
  | inl here ↦ rw here (h, split_on-All c [] s refl)
  | inr off ↦ rw off (
      split_on-All c (part ++ d ∷ []) s
        (ground (arith, elem-append c part (d ∷ []), ==_iff d c, ==_iff c d)))
]

split_on_last : (c : ℕ) (part s : Text) → elem c s ≡ false → split_on c part s ≡ (part ++ s) ∷ []
unfolding split_on
split_on_last c part [] h = ap (λ p. p ∷ []) (sym (append-nil part))
split_on_last c part (d ∷ s) h =
    let off : (d == c) ≡ false = ground (arith, ==_iff d c, ==_iff c d) in
    rw off (
      split_on_last c (part ++ d ∷ []) s (ground arith)
      ∙ ap (λ p. p ∷ []) (append_assoc part (d ∷ []) s))

split_on_next :
    (c : ℕ) (part s rest : Text)
    → elem c s ≡ false
    → split_on c part (s ++ c ∷ rest) ≡ (part ++ s) ∷ split_on c [] rest
unfolding split_on
split_on_next c part [] rest h =
    rw (==_refl c) (ap (λ p. p ∷ split_on c [] rest) (sym (append-nil part)))
split_on_next c part (d ∷ s) rest h =
    let off : (d == c) ≡ false = ground (arith, ==_iff d c, ==_iff c d) in
    rw off (
      split_on_next c (part ++ d ∷ []) s rest (ground arith)
      ∙ ap (λ p. p ∷ split_on c [] rest) (append_assoc part (d ∷ []) s))

-- Cookies that are joined are read as they were, behind white space too.
split_on-join_parts :
    (space p : Text) (parts : List Text)
    → ((s : Text) → strip (space ++ s) ≡ strip s)
    → All IsCookie (p ∷ parts)
    → map strip (split_on b';' space (join_parts (p ∷ parts))) ≡ p ∷ parts
unfolding split_on
split_on-join_parts space p [] blank ((whole, stripped), _) =
    ap (map strip) (split_on_last b';' space p whole) ∙ ap (λ x. x ∷ []) (blank p ∙ stripped)
split_on-join_parts space p (q ∷ parts) blank ((whole, stripped), more) =
    let rest = join_parts (q ∷ parts) in
    ap (map strip) (split_on_next b';' space p (b' ' ∷ rest) whole)
    ∙ ap (λ x. x ∷ map strip (split_on b';' (b' ' ∷ []) rest)) (blank p ∙ stripped)
    ∙ ap (◌∷◌ p) (split_on-join_parts (b' ' ∷ []) q parts strip_space more)

cookies_of-IsCookie : (value : Text) → All IsCookie (cookies_of value)
cookies_of-IsCookie value = All-of_map IsCookie strip (split_on b';' [] value) (
    All-map (λ p whole. (elem-strip b';' p whole, strip-strip p)) (split_on b';' [] value)
      (split_on-All b';' [] value refl))

-- The cookies of what is sent on for a value are those of the value, less the session's.
pub cookies_of-kept_cookies :
    (value : Text)
    → (join_parts (kept_cookies value) == []) ≡ false
    → cookies_of (join_parts (kept_cookies value))
      ≡ filter (λ p. not (is_session_cookie p)) (cookies_of value)
unfolding kept_cookies
cookies_of-kept_cookies value sent =
    let kept = filter (λ p. not (is_session_cookie p)) (cookies_of value) in
    let cookies =
      All-filter (λ p. not (is_session_cookie p)) IsCookie (cookies_of value)
        (cookies_of-IsCookie value) in
    elim (List-cases kept) [
      | inl nothing ↦ absurd (false≢true (sym sent ∙ ap (λ ps. join_parts ps == []) nothing))
      | inr (p, parts, e) ↦
          ap (λ ps. cookies_of (join_parts ps)) e
          ∙ split_on-join_parts [] p parts (λ s. refl) (subst (All IsCookie) e cookies)
          ∙ sym e
    ]
