-- ===== src/Domains/Longest.antt =====
-- `Domain.match`: the domain with the longest name among those that own the host.
use cloud_in_a_bottle.Shared.{
  ==_iff, All, All-append, All-mem, All-of_mem, Bool-cases, List, List_eq, Memᴰ, Option,
  Option-cases, Text, [], ap, append_of_ends_with, arith, drop, drop-append, false, if◌then◌else◌,
  inl, inr, length, length-append, ltb, none, refl, some, sym, take, true, ℕ, ℕ_eq, ◌&&◌, ◌++◌, ◌-◌,
  ◌==◌, ◌↔◌, ◌∙◌, ◌∷◌, ◌≡◌, ◌≤◌,
}
use mathlib.Core.List.{append-nil, append_assoc}
use mathlib.Core.List.Memᴰ
use mathlib.Core.Option
use mathlib.Core.Bool.{false≢true}
use mathlib.Core.Path.{subst}
use cloud_in_a_bottle.Domains.{Domain, name_no_port, host_no_port, owns, match_from, match}

abbrev size : Domain → ℕ
size d = length (name_no_port d)

-- The domain owns the host, and no domain of the list that owns it has a longer name.
pub record IsLongest (domains : List Domain) (host : Text) (d : Domain) : Type 0 where
  pub listed : Memᴰ d domains
  pub owner : owns d host ≡ true
  pub longest :
      (e : Domain)
      → Memᴰ e domains
      → owns e host ≡ true
      → length (name_no_port e) ≤ length (name_no_port d)

module _ (host : Text) where
  -- The round of the loop.
  abbrev better : Option Domain → Domain → Option Domain
  better best d =
      if owns d host && elim best [ none ↦ true | some b ↦ ltb (size b) (size d) ]
      then some d
      else best

  -- `best` is right for the domains that the loop has seen.
  abbrev IsBest : List Domain → Option Domain → Type 0
  IsBest seen none = All (λ d. owns d host ≡ false) seen
  IsBest seen (some d) = IsLongest seen host d

  -- One more domain that does not change the answer, and one that does.
  IsLongest-keep :
      (seen : List Domain) (b d : Domain)
      → IsLongest seen host b
      → (owns d host ≡ true → size d ≤ size b)
      → IsLongest (seen ++ d ∷ []) host b
  IsLongest-keep seen b d h le = record {
    listed = Memᴰ.append_left (d ∷ []) h.listed;
    owner = h.owner;
    longest = λ e m o. elim (Memᴰ.append_cases seen m) [
      | inl old ↦ h.longest e old o
      | inr new ↦
          let same = Memᴰ.eq_of_singleton new in rw same (le (sym (ap (λ x. owns x host) same) ∙ o))
    ];
  }

  IsLongest-new :
      (seen : List Domain) (d : Domain)
      → owns d host ≡ true
      → ((e : Domain) → Memᴰ e seen → owns e host ≡ true → size e ≤ size d)
      → IsLongest (seen ++ d ∷ []) host d
  IsLongest-new seen d o le = record {
    listed = Memᴰ.append_right seen (Memᴰ.head refl);
    owner = o;
    longest = λ e m oe. elim (Memᴰ.append_cases seen m) [
      | inl old ↦ le e old oe
      | inr new ↦ omega (arith, ap size (Memᴰ.eq_of_singleton new))
    ];
  }

  IsBest-better :
      (seen : List Domain) (best : Option Domain) (d : Domain)
      → IsBest seen best
      → IsBest (seen ++ d ∷ []) (better best d)
  IsBest-better seen none d h = elim (Bool-cases (owns d host)) [
    | inl o ↦
        rw o
          (IsLongest-new seen d o (λ e m oe. absurd (false≢true (sym (All-mem _ seen h m) ∙ oe))))
    | inr o ↦ rw o (All-append _ seen (d ∷ []) h (o, tt))
  ]
  IsBest-better seen (some b) d h = elim (Bool-cases (owns d host && ltb (size b) (size d))) [
    | inl more ↦
        rw more (
          IsLongest-new seen d (ground arith) (λ e m oe. let le = h.longest e m oe in ground arith))
    | inr no_more ↦ rw no_more (IsLongest-keep seen b d h (λ o. ground arith))
  ]

  match_from-IsBest :
      (seen ds : List Domain) (best : Option Domain)
      → IsBest seen best
      → IsBest (seen ++ ds) (match_from best ds host)
  unfolding match_from
  match_from-IsBest seen [] best h = rw append-nil h
  match_from-IsBest seen (d ∷ ds) best h =
      rw (append_assoc seen (d ∷ []) ds) at
        (match_from-IsBest (seen ++ d ∷ []) ds (better best d) (IsBest-better seen best d h))

  match-IsBest : (domains : List Domain) → IsBest domains (match domains host)
  unfolding match
  match-IsBest domains = match_from-IsBest [] domains none tt

  -- `Domain.match` returns None exactly when no domain owns the host.
  pub match-eq-none_iff :
      (domains : List Domain) → (match domains host ≡ none) ↔ All (λ d. owns d host ≡ false) domains
  match-eq-none_iff domains = (
    λ h. subst (IsBest domains) h (match-IsBest domains),
    λ h. elim (Option-cases (match domains host)) [
      | inl e ↦ e
      | inr (d, e) ↦
          let l : IsLongest domains host d = subst (IsBest domains) e (match-IsBest domains) in
          absurd (false≢true (sym (All-mem _ domains h l.listed) ∙ l.owner))
    ],
  )

  -- A domain that `Domain.match` returns is in the table and owns the host, and no domain of the
  -- table that owns the host has a longer name.
  pub match-IsLongest :
      (domains : List Domain) (d : Domain) → match domains host ≡ some d → IsLongest domains host d
  match-IsLongest domains d h = subst (IsBest domains) h (match-IsBest domains)

  abbrev label : Text
  label = host_no_port host

  owns-suffix :
      (d : Domain)
      → owns d host ≡ true
      → drop (length (host_no_port host) - size d) (host_no_port host) ≡ name_no_port d
  unfolding owns
  owns-suffix d h = elim (Bool-cases (label == name_no_port d)) [
    | inl bare ↦
        let e : label ≡ name_no_port d = (==_iff label (name_no_port d)).0 bare in
        let k : length label - size d ≡ 0 = omega (arith, ap length e) in rw k e
    | inr under ↦
        let p = take (length label - length (b'.' ∷ name_no_port d)) label in
        let e : p ++ b'.' ∷ name_no_port d ≡ label =
          append_of_ends_with (b'.' ∷ name_no_port d) label (ground arith) in
        let e' : (p ++ b'.' ∷ []) ++ name_no_port d ≡ label =
          append_assoc p (b'.' ∷ []) (name_no_port d) ∙ e in
        let k : length label - size d ≡ length (p ++ b'.' ∷ []) =
          omega (arith, ap length e', length-append (p ++ b'.' ∷ []) (name_no_port d)) in
        rw k (
          ap (drop (length (p ++ b'.' ∷ []))) (sym e')
          ∙ drop-append (p ++ b'.' ∷ []) (name_no_port d))
  ]

  same_name :
      (domains others : List Domain) (d e : Domain)
      → ((x : Domain) → Memᴰ x domains → Memᴰ x others)
      → ((x : Domain) → Memᴰ x others → Memᴰ x domains)
      → match domains host ≡ some d
      → match others host ≡ some e
      → name_no_port d ≡ name_no_port e
  same_name domains others d e to from hd he =
      let ld = match-IsLongest domains d hd in
      let le = match-IsLongest others e he in
      let same : size d ≡ size e =
        omega (
          arith,
          ld.longest e (from e le.listed) le.owner,
          le.longest d (to d ld.listed) ld.owner,
        ) in
      sym (owns-suffix d ld.owner)
      ∙ ap (λ n. drop (length (host_no_port host) - n) (host_no_port host)) same
      ∙ owns-suffix e le.owner

  -- No domain of a table owns the host where none of a larger one does.
  match-eq-none :
      (domains others : List Domain)
      → ((x : Domain) → Memᴰ x others → Memᴰ x domains)
      → match domains host ≡ none
      → match others host ≡ none
  match-eq-none domains others from nobody = (match-eq-none_iff others).1 (
      All-of_mem (λ d. owns d host ≡ false) others
        (λ d m.
          All-mem (λ d. owns d host ≡ false) domains ((match-eq-none_iff domains).0 nobody)
            (from d m)))

  -- The answer hangs on the domains of the table, and not on their order: two tables that hold the
  -- same domains give the same name for a host, or both give none.
  pub match_order_free :
      (domains others : List Domain)
      → ((x : Domain) → Memᴰ x domains → Memᴰ x others)
      → ((x : Domain) → Memᴰ x others → Memᴰ x domains)
      → Option.map name_no_port (match domains host) ≡ Option.map name_no_port (match others host)
  match_order_free domains others to from = elim (Option-cases (match domains host)) [
    | inl nobody ↦ rw (nobody, match-eq-none domains others from nobody) refl
    | inr (d, hd) ↦ elim (Option-cases (match others host)) [
      | inl nobody ↦ rw (nobody, match-eq-none others domains to nobody) refl
      | inr (e, he) ↦ rw (hd, he) (ap some (same_name domains others d e to from hd he))
    ]
  ]
