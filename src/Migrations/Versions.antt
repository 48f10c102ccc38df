-- ===== src/Migrations/Versions.antt =====
-- The version numbers of a registry: `validate_registry` and the highest version, which
-- compute_space/src/compute_space/db/versioned/runner.py and
-- openhost_system_agent/src/openhost_system_agent/migrations/registry.py write alike.
use mathlib.Core.Path.{subst}
use cloud_in_a_bottle.Shared.{
  ==_iff, All, Bool, List, List_eq, [], arith, length, range_from, sym, true, ℕ, ℕ_eq, ◌+◌, ◌==◌,
  ◌∷◌, ◌≡◌, ◌≤◌,
}

-- `versions == list(range(2, 2 + len(versions)))`, true of an empty registry.
unfoldable pub is_contiguous : List ℕ → Bool
is_contiguous versions = versions == range_from 2 (length versions)

-- `registry[-1].version`, or 1.
unfoldable pub highest_version : List ℕ → ℕ
highest_version [] = 1
highest_version (v ∷ []) = v
highest_version (v ∷ w ∷ versions) = highest_version (w ∷ versions)

-- The numbers from `start` on.
abbrev pub IsRun : ℕ → List ℕ → Type 0
IsRun start [] = Unit
IsRun start (v ∷ versions) = (v ≡ start) × IsRun (start + 1) versions

IsRun-of_range : (start : ℕ) (vs : List ℕ) → vs ≡ range_from start (length vs) → IsRun start vs
IsRun-of_range start [] h = tt
IsRun-of_range start (v ∷ vs) h =
    let (here, later) : (v ≡ start) × (vs ≡ range_from (start + 1) (length vs)) = (cc, cc) in
    (here, IsRun-of_range (start + 1) vs later)

pub is_contiguous-IsRun : (vs : List ℕ) → is_contiguous vs ≡ true → IsRun 2 vs
unfolding is_contiguous
is_contiguous-IsRun vs h = IsRun-of_range 2 vs ((==_iff vs (range_from 2 (length vs))).0 h)

-- The highest version of a run is the last before the next number.
pub highest_version-IsRun :
    (start : ℕ) (v : ℕ) (vs : List ℕ)
    → IsRun start (v ∷ vs)
    → highest_version (v ∷ vs) ≡ start + length vs
unfolding highest_version
highest_version-IsRun start v [] h = omega arith
highest_version-IsRun start v (w ∷ vs) h = omega (arith, highest_version-IsRun (start + 1) w vs h.1)

-- No version of a contiguous registry passes the highest.
pub All-le-highest : (vs : List ℕ) → is_contiguous vs ≡ true → All (λ v. v ≤ highest_version vs) vs
All-le-highest [] h = tt
All-le-highest (v ∷ vs) h =
    let is_run = is_contiguous-IsRun (v ∷ vs) h in
    subst (λ top. All (λ w. w ≤ top) (v ∷ vs)) (sym (highest_version-IsRun 2 v vs is_run))
      (below 2 (2 + length vs) (v ∷ vs) is_run (omega arith))
  where
    below :
        (start top : ℕ) (ws : List ℕ)
        → IsRun start ws
        → start + length ws ≤ top + 1
        → All (λ w. w ≤ top) ws
    below start top [] r h = tt
    below start top (w ∷ ws) r h = (omega (arith, r.0), below (start + 1) top ws r.1 (omega arith))

pub highest_version_lem :
    (vs : List ℕ) → is_contiguous vs ≡ true → highest_version vs ≡ 1 + length vs
unfolding highest_version
highest_version_lem [] h = omega arith
highest_version_lem (v ∷ vs) h =
    omega (arith, highest_version-IsRun 2 v vs (is_contiguous-IsRun (v ∷ vs) h))
