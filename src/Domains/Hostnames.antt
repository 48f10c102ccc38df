-- ===== src/Domains/Hostnames.antt =====
-- App names in host names: what `is_valid_app_name` accepts, and `app_name_from_hostname` both ways.
use cloud_in_a_bottle.Shared.{
  ==_iff, Bool-cases, List_eq, Text, [], all, ap, append_of_ends_with, arith, ends_with,
  ends_with-append, inl, inr, length, length-append, refl, some, suc, sym, take, take-append, true,
  ℕ, ℕ_eq, ◌&&◌, ◌++◌, ◌+◌, ◌-◌, ◌↔◌, ◌∙◌, ◌∷◌, ◌≡◌, ◌≢◌, ◌⊎◌,
}
use cloud_in_a_bottle.Domains.{
  Domain, name_no_port, host_no_port, owns, looks_like_app_subdomain, is_alnum, is_inner, at_end,
  inner_then_alnum, is_valid_app_name, app_name_from_hostname,
}

-- Lowercase letters, digits and hyphens, with no hyphen at either end.
abbrev last_or : ℕ → Text → ℕ
last_or c [] = c
last_or c (d ∷ s) = last_or d s

abbrev pub IsLabel : Text → Type 0
IsLabel [] = ⊥
IsLabel (c ∷ s) = (is_alnum c ≡ true) × (all is_inner s ≡ true) × (is_alnum (last_or c s) ≡ true)

is_inner_of_alnum : (c : ℕ) → is_alnum c ≡ true → is_inner c ≡ true
unfolding is_inner
is_inner_of_alnum c h = ground arith

inner_then_alnum_of_label :
    (c : ℕ) (s : Text)
    → all is_inner (c ∷ s) ≡ true
    → is_alnum (last_or c s) ≡ true
    → (inner_then_alnum (c ∷ s) ≡ true) × (inner_then_alnum ((c ∷ s) ++ 10 ∷ []) ≡ true)
unfolding inner_then_alnum
inner_then_alnum_of_label c [] h l = ground arith
inner_then_alnum_of_label c (d ∷ s) h l =
    ground (arith, inner_then_alnum_of_label d s (ground arith) l)

-- A name that the regular expression is meant for is accepted, and so is that name with a newline
-- behind it.
pub is_valid_app_name_of_IsLabel :
    (s : Text)
    → IsLabel s
    → (is_valid_app_name s ≡ true) × (is_valid_app_name (s ++ 10 ∷ []) ≡ true)
unfolding is_valid_app_name
is_valid_app_name_of_IsLabel [] h = absurd h
is_valid_app_name_of_IsLabel (c ∷ []) h = ground arith
is_valid_app_name_of_IsLabel (c ∷ d ∷ s) (first, inner, last) =
    let r = inner_then_alnum_of_label d s inner last in ground arith

-- The text, or the text with a newline behind it.
abbrev pub OrNewline : Text → Text → Type 0
OrNewline s t = (s ≡ t) ⊎ (s ≡ t ++ 10 ∷ [])

OrNewline-cons : (c : ℕ) (s t : Text) → OrNewline s t → OrNewline (c ∷ s) (c ∷ t)
OrNewline-cons c s t (inl e) = inl (ap (◌∷◌ c) e)
OrNewline-cons c s t (inr e) = inr (ap (◌∷◌ c) e)

label_of_inner_then_alnum :
    (c : ℕ) (s : Text)
    → inner_then_alnum (c ∷ s) ≡ true
    → (t : Text) × OrNewline s t × (all is_inner (c ∷ t) ≡ true) × (is_alnum (last_or c t) ≡ true)
unfolding inner_then_alnum
label_of_inner_then_alnum c [] h = ([], inl refl, ground (arith, is_inner_of_alnum c), ground arith)
label_of_inner_then_alnum c (d ∷ s) h = elim (Bool-cases (is_alnum c && at_end (d ∷ s))) [
  | inl stop ↦ ([], inr (newline s stop), ground (arith, is_inner_of_alnum c), ground arith)
  | inr more ↦
      let (t, same, inner, last) = label_of_inner_then_alnum d s (ground arith) in
      (d ∷ t, OrNewline-cons d s t same, ground arith, last)
]
  where
    newline : (r : Text) → (is_alnum c && at_end (d ∷ r)) ≡ true → d ∷ r ≡ 10 ∷ []
    newline [] h = ground (arith, ==_iff d 10)
    newline (e ∷ r) h = ground arith

alone : (c : ℕ) (r : Text) → at_end r ≡ true → OrNewline (c ∷ r) (c ∷ [])
alone c [] h = inl refl
alone c (d ∷ []) h = inr (ground (arith, ==_iff d 10))
alone c (d ∷ e ∷ r) h = cc

starts :
    (c : ℕ) (r : Text)
    → is_alnum c ≡ true
    → inner_then_alnum r ≡ true
    → (t : Text) × OrNewline (c ∷ r) t × IsLabel t
unfolding inner_then_alnum
starts c [] first h = cc
starts c (d ∷ r) first h =
    let (t, same, inner, last) = label_of_inner_then_alnum d r h in
    (c ∷ d ∷ t, OrNewline-cons c (d ∷ r) (d ∷ t) (OrNewline-cons d r t same), (first, inner, last))

-- `is_valid_app_name` accepts exactly the labels, and the labels with one newline behind them.
pub is_valid_app_name_iff :
    (s : Text) → (is_valid_app_name s ≡ true) ↔ ((t : Text) × OrNewline s t × IsLabel t)
unfolding is_valid_app_name
is_valid_app_name_iff s = (to s, from)
  where
    from : (t : Text) × OrNewline s t × IsLabel t → is_valid_app_name s ≡ true
    from (t, inl e, l) = rw e (is_valid_app_name_of_IsLabel t l).0
    from (t, inr e, l) = rw e (is_valid_app_name_of_IsLabel t l).1

    to : (r : Text) → is_valid_app_name r ≡ true → (t : Text) × OrNewline r t × IsLabel t
    to [] h = cc
    to (c ∷ r) h = elim (Bool-cases (at_end r)) [
      | inl stop ↦ (c ∷ [], alone c r stop, (ground arith, refl, ground arith))
      | inr more ↦ starts c r (ground arith) (ground arith)
    ]

module _ (d : Domain) (host : Text) where
  abbrev label : Text
  label = host_no_port host

  abbrev prefix_of_label : Text
  prefix_of_label = take (length label - (length (name_no_port d) + 1)) label

  subdomain_of_app :
      (app : Text)
      → name_no_port d ≢ []
      → label ≡ app ++ b'.' ∷ name_no_port d
      → (looks_like_app_subdomain d host ≡ true) × (prefix_of_label ≡ app)
  unfolding looks_like_app_subdomain owns
  subdomain_of_app app named e =
      let n : length label ≡ length app + suc (length (name_no_port d)) =
        ap length e ∙ length-append app (b'.' ∷ name_no_port d) in
      let differ : label ≢ name_no_port d = λ same. absurd (omega (arith, ap length same)) in
      let ends : ends_with (b'.' ∷ name_no_port d) label ≡ true =
        rw e (ends_with-append app (b'.' ∷ name_no_port d)) in
      let k : length label - (length (name_no_port d) + 1) ≡ length app = omega arith in
      (
        ground
            (arith, ==_iff (name_no_port d) [], ==_iff label (name_no_port d), ends, differ, named),
        ap (λ i. take i label) k
            ∙ ap (take (length app)) e
            ∙ take-append app (b'.' ∷ name_no_port d),
      )

  app_of_subdomain :
      looks_like_app_subdomain d host ≡ true → label ≡ prefix_of_label ++ b'.' ∷ name_no_port d
  unfolding looks_like_app_subdomain owns
  app_of_subdomain h =
      let k : length (name_no_port d) + 1 ≡ suc (length (name_no_port d)) = omega arith in
      rw k (sym (append_of_ends_with (b'.' ∷ name_no_port d) label (ground arith)))

  -- For a domain with a name, `app_name_from_hostname` gives an app name exactly when the host, less
  -- its port and in lowercase, is a valid app name, a dot and the domain's name less its port.
  pub app_name_from_hostname_iff :
      (app : Text)
      → name_no_port d ≢ []
      → (app_name_from_hostname d host ≡ some app)
        ↔ ((is_valid_app_name app ≡ true) × (label ≡ app ++ b'.' ∷ name_no_port d))
  unfolding app_name_from_hostname
  app_name_from_hostname_iff app named = (to, from)
    where
      from :
          (is_valid_app_name app ≡ true) × (label ≡ app ++ b'.' ∷ name_no_port d)
          → app_name_from_hostname d host ≡ some app
      from (valid, e) = ground (arith, subdomain_of_app app named e)

      to :
          app_name_from_hostname d host ≡ some app
          → (is_valid_app_name app ≡ true) × (label ≡ app ++ b'.' ∷ name_no_port d)
      to h = ground (arith, app_of_subdomain)
