-- ===== src/Access/Paths/Decoded.antt =====
-- What `is_public_request_path` of compute_space/src/compute_space/core/apps.py promises about a path that
-- a backend decodes again.

use cloud_in_a_bottle.Shared.{
  ==_iff, Bool-cases, List, List_eq, Option, Option-cases, String_eq, Text, all, ap, arith, codes,
  elem, false, inl, inr, ltb, refl, some, suc, true, when_set, zero, ℕ, ℕ_eq, ◌==◌, ◌∙◌, ◌≡◌,
}
use cloud_in_a_bottle.Access.Paths.{
  is_public_path, is_unambiguous_path, is_public_decoded, is_public_request_path,
  max_public_path_checks,
}

module _ (unquote : Text → Option Text) where
  -- The path after so many rounds of decoding.
  abbrev pub decoded : ℕ → Text → Option Text
  decoded zero path = some path
  decoded (suc n) path = when_set (unquote path) (λ next. decoded n next)

  -- A path that is public and has one reading.
  abbrev pub IsOpenPath : List Text → Text → Type 0
  IsOpenPath public_paths path =
      (is_unambiguous_path path ≡ true) × (is_public_path public_paths path ≡ true)

  decoded_fixed : (n : ℕ) (path : Text) → unquote path ≡ some path → decoded n path ≡ some path
  decoded_fixed zero path h = refl
  decoded_fixed (suc n) path h =
      ap (λ o. when_set o (λ next. decoded n next)) h ∙ decoded_fixed n path h

  is_public_decoded-IsOpenPath :
      (rounds : ℕ) (public_paths : List Text) (path : Text)
      → is_public_decoded unquote rounds public_paths path ≡ true
      → (n : ℕ) → (q : Text) × (decoded n path ≡ some q) × IsOpenPath public_paths q
  unfolding is_public_decoded
  is_public_decoded-IsOpenPath zero public_paths path h n = absurd (ground arith)
  is_public_decoded-IsOpenPath (suc rounds) public_paths path h n =
      let here : IsOpenPath public_paths path = (ground arith, ground arith) in
      elim (Option-cases (unquote path)) [
        | inl bad ↦ absurd (ground arith)
        | inr (next, is) ↦ elim (Bool-cases (next == path)) [
          | inl same ↦ (path, decoded_fixed n path (is ∙ ap some ((==_iff next path).0 same)), here)
          | inr moved ↦
              later n is (is_public_decoded-IsOpenPath rounds public_paths next (ground arith))
        ]
      ]
    where
      later :
          (m : ℕ) {next : Text}
          → unquote path ≡ some next
          → ((k : ℕ) → (q : Text) × (decoded k next ≡ some q) × IsOpenPath public_paths q)
          → (q : Text) × (decoded m path ≡ some q) × IsOpenPath public_paths q
      later zero is rest = (path, refl, (ground arith, ground arith))
      later (suc m) is rest =
          let (q, eq, open_path) = rest m in
          (q, ap (λ o. when_set o (λ x. decoded m x)) is ∙ eq, open_path)

  -- A request path that passes for public, of an app that is not wholly public, is ASCII and has no
  -- query or fragment; decoding it never fails, and after any number of rounds, one at least, the path
  -- is public and has one reading.
  pub is_public_request_path-IsOpenPath :
      (public_paths : List Text) (raw_path : Text)
      → is_public_request_path unquote public_paths raw_path ≡ true
      → elem (codes "/") public_paths ≡ false
      → (elem b'#' raw_path ≡ false)
        × (elem b'?' raw_path ≡ false)
        × (all (λ c. ltb c 128) raw_path ≡ true)
        × ((n : ℕ) → (q : Text) × (decoded (suc n) raw_path ≡ some q) × IsOpenPath public_paths q)
  unfolding is_public_request_path
  is_public_request_path-IsOpenPath public_paths raw_path h partly =
      elim (Option-cases (unquote raw_path)) [
        | inl bad ↦ absurd (ground arith)
        | inr (path, is) ↦ (
          ground arith,
          ground arith,
          ground arith,
          λ n.
              let (q, eq, open_path) =
                is_public_decoded-IsOpenPath max_public_path_checks public_paths path (ground arith)
                  n in
              (q, ap (λ o. when_set o (λ x. decoded n x)) is ∙ eq, open_path),
        )
      ]
