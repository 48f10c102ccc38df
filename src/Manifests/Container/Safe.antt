-- ===== src/Manifests/Container/Safe.antt =====
-- What _validate_capabilities and _validate_devices of compute_space/src/compute_space/core/manifest.py let
-- through.
use cloud_in_a_bottle.Shared.{
  ==_iff, All, All-map, All-mem, All-of_all, List, List_eq, Result, String_eq, Text, [], all, ap,
  bind-eq-ok, elem, is_space, lstrip, map, mem_of_elem, ok, ok-inj, refl, remove_prefix,
  require_iff, required-bind_iff, rstrip, starts_with, strip, true, upper, ℕ_eq, ◌==◌, ◌∷◌, ◌≡◌,
}
use cloud_in_a_bottle.Manifests.Toml.{
  Toml, ManifestError, Tomls, end_of_array, item, items, string, array, as_list, as_string,
  capability_not_safe, not_a_list, not_a_string, device_not_allowed,
}
use cloud_in_a_bottle.Manifests.Container.{
  capability_name, each, safe_capabilities, host_path, safe_device_paths, validate_capabilities,
  validate_capability, validate_device, validate_devices,
}

-- The array of these texts.
abbrev pub strings : List Text → Tomls
strings [] = end_of_array
strings (s ∷ ss) = item (string s) (strings ss)

items-strings : (ss : List Text) → items (strings ss) ≡ map string ss
unfolding items
items-strings [] = refl
items-strings (s ∷ ss) = ap (◌∷◌ (string s)) (items-strings ss)

pub each-All :
    {A B : Type 0} (P : B → Type 0) (f : A → Result ManifestError B)
    → ((x : A) (y : B) → f x ≡ ok y → P y)
    → (xs : List A) (ys : List B) → each f xs ≡ ok ys
    → All P ys
unfolding each
each-All P f holds [] ys h = rw (← (ok-inj h)) tt
each-All P f holds (x ∷ xs) ys h =
    let (y, here, h1) = bind-eq-ok (f x) _ h in
    let (later, rest, h2) = bind-eq-ok (each f xs) _ h1 in
    let e : y ∷ later ≡ ys = ok-inj h2 in
    rw (← e) (holds x y here, each-All P f holds xs later rest)

each_of_fixed :
    {A B : Type 0} (g : B → A) (f : A → Result ManifestError B) (ys : List B)
    → All (λ y. f (g y) ≡ ok y) ys
    → each f (map g ys) ≡ ok ys
unfolding each
each_of_fixed g f [] h = refl
each_of_fixed g f (y ∷ ys) (here, h) = rw (here, each_of_fixed g f ys h) refl

abbrev IsSafe : Text → Type 0
IsSafe name = elem name safe_capabilities ≡ true

-- Each safe name is written as it is looked up.
safe_as_written : all (λ name. capability_name name == name) safe_capabilities ≡ true
unfolding capability_name remove_prefix upper strip lstrip rstrip is_space starts_with
safe_as_written = refl

capability_name-safe : (name : Text) → IsSafe name → capability_name name ≡ name
capability_name-safe name safe = (==_iff (capability_name name) name).0 (
    All-mem (λ n. (capability_name n == n) ≡ true) safe_capabilities
      (All-of_all (λ n. capability_name n == n) safe_capabilities safe_as_written)
      (mem_of_elem name safe_capabilities safe))

validate_capability-IsSafe :
    (entry : Toml) (name : Text) → validate_capability entry ≡ ok name → IsSafe name
unfolding validate_capability
validate_capability-IsSafe entry name h =
    let (text, _, h1) = (required-bind_iff (as_string entry) not_a_string _).0 h in
    let (safe, h2) = (require_iff _ capability_not_safe _).0 h1 in
    let e : capability_name text ≡ name = ok-inj h2 in rw (← e) safe

validate_capability_of_safe :
    (name : Text) → IsSafe name → validate_capability (string name) ≡ ok name
unfolding validate_capability as_string
validate_capability_of_safe name safe = rw (capability_name-safe name safe, safe) refl

-- The capabilities of a manifest that is accepted are all on the list of safe ones, by the names that
-- the list has, so that checking them again gives the same names.
pub validate_capabilities-IsSafe :
    (caps : Toml) (names : List Text)
    → validate_capabilities caps ≡ ok names
    → All (λ name. elem name safe_capabilities ≡ true) names
      × (validate_capabilities (array (strings names)) ≡ ok names)
unfolding validate_capabilities as_list
validate_capabilities-IsSafe caps names h =
    let (entries, _, h1) = (required-bind_iff (as_list caps) not_a_list _).0 h in
    let safe = each-All IsSafe validate_capability validate_capability-IsSafe entries names h1 in
    (
      safe,
      rw (items-strings names) (
          each_of_fixed string validate_capability names
            (All-map validate_capability_of_safe names safe)),
    )

validate_device-safe :
    (entry : Toml) (device : Text)
    → validate_device entry ≡ ok device
    → elem (host_path device) safe_device_paths ≡ true
unfolding validate_device
validate_device-safe entry device h =
    let (text, _, h1) = (required-bind_iff (as_string entry) not_a_string _).0 h in
    let (safe, h2) = (require_iff _ device_not_allowed _).0 h1 in
    let e : text ≡ device = ok-inj h2 in rw (← e) safe

-- Every device that a manifest may pass to its container has a host path on the list of safe ones.
pub validate_devices-safe :
    (devices : Toml) (allowed : List Text)
    → validate_devices devices ≡ ok allowed
    → All (λ device. elem (host_path device) safe_device_paths ≡ true) allowed
unfolding validate_devices
validate_devices-safe devices allowed h =
    let (entries, _, h1) = (required-bind_iff (as_list devices) not_a_list _).0 h in
    each-All (λ device. elem (host_path device) safe_device_paths ≡ true) validate_device
      validate_device-safe entries allowed h1
