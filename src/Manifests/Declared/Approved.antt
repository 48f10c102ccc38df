-- ===== src/Manifests/Declared/Approved.antt =====
-- What the permission diffs of compute_space/src/compute_space/core/manifest.py hold.
use cloud_in_a_bottle.Shared.{
  ==_iff, ==_refl, All, All-of_mem, Bool, Bool-cases, Distinct, List, List_eq, Result, String_eq,
  Text, [], ap, arith, elem, elem-append, elem_of_mem, false, filter, inl, inr, map, not, ok, raise,
  refl, some, true, ℕ, ℕ_eq, ◌&&◌, ◌++◌, ◌==◌, ◌||◌, ◌∙◌, ◌∷◌, ◌≡◌,
}
use cloud_in_a_bottle.Manifests.Toml.{Toml, ManifestError, keys}
use cloud_in_a_bottle.Manifests.Parsed.{AppManifest}
use cloud_in_a_bottle.Manifests.Declared.{
  PermissionKey, PermissionKey_eq, PermissionGrant, all_manifest_permissions_v2, grant_key,
  permission_key, unseen, PermissionRecord, all_permissions, granted_keys, is_value_error,
  manifest_newly_declared_permissions_v2, manifest_ungranted_permissions_v2, not_in,
  previously_declared, without_previous,
}
use cloud_in_a_bottle.Permissions.{Json, granted}

elem-same :
    (k l : PermissionKey) (ks : List PermissionKey) → (k == l) ≡ true → elem k ks ≡ elem l ks
elem-same k l ks same = ap (λ x. elem x ks) ((==_iff k l).0 same)

and_of_absorbed :
    (same later old : Bool)
    → (same ≡ true → old ≡ true)
    → (later && not old) ≡ ((same || later) && not old)
and_of_absorbed same later old h = ground arith

and_of_new :
    (same later old : Bool)
    → (same ≡ true → old ≡ false)
    → (same || (later && not (same || old))) ≡ ((same || later) && not old)
and_of_new same later old h = ground arith

and_of_kept :
    (same later old : Bool)
    → (same ≡ true → old ≡ false)
    → (same || (later && not old)) ≡ ((same || later) && not old)
and_of_kept same later old h = ground arith

or_of_and_not : (declared old : Bool) → declared ≡ true → ((declared && not old) || old) ≡ true
or_of_and_not declared old h = ground arith

and_not_same :
    (k : PermissionKey) (later : Bool) (seen : List PermissionKey)
    → (later && not (elem k (k ∷ seen))) ≡ false
and_not_same k later seen = ground (arith, ==_refl k)

module _ (json : Json) (as_grant : Toml → json.Grant) where
  abbrev Grants : Type 0
  Grants = List (PermissionGrant json as_grant)

  abbrev pub keys_of : List (PermissionGrant json as_grant) → List PermissionKey
  keys_of = map (grant_key json as_grant)

  -- The keys of what a manifest declares.
  abbrev pub declared_keys : AppManifest → List PermissionKey
  declared_keys m = keys_of (all_manifest_permissions_v2 json as_grant m)

  elem-unseen :
      (k : PermissionKey) (pgs : Grants) (seen : List PermissionKey)
      → elem k (keys_of (unseen json as_grant seen pgs))
        ≡ (elem k (keys_of pgs) && not (elem k seen))
  unfolding unseen permission_key
  elem-unseen k [] seen = refl
  elem-unseen k (pg ∷ pgs) seen = elim (Bool-cases (elem (grant_key json as_grant pg) seen)) [
    | inl old ↦
        rw (old, elem-unseen k pgs seen)
          (and_of_absorbed (k == grant_key json as_grant pg) (elem k (keys_of pgs)) (elem k seen)
            (λ same. elem-same k (grant_key json as_grant pg) seen same ∙ old))
    | inr new ↦
        rw (new, elem-unseen k pgs (grant_key json as_grant pg ∷ seen))
          (and_of_new (k == grant_key json as_grant pg) (elem k (keys_of pgs)) (elem k seen)
            (λ same. elem-same k (grant_key json as_grant pg) seen same ∙ new))
  ]

  unseen-Distinct :
      (pgs : Grants) (seen : List PermissionKey)
      → Distinct (keys_of (unseen json as_grant seen pgs))
  unfolding unseen permission_key
  unseen-Distinct [] seen = tt
  unseen-Distinct (pg ∷ pgs) seen =
      let key = grant_key json as_grant pg in
      elim (Bool-cases (elem key seen)) [
        | inl old ↦ rw old (unseen-Distinct pgs seen)
        | inr new ↦
            let later : elem key (keys_of (unseen json as_grant (key ∷ seen) pgs)) ≡ false =
              elem-unseen key pgs (key ∷ seen) ∙ and_not_same key (elem key (keys_of pgs)) seen in
            rw new (later, unseen-Distinct pgs (key ∷ seen))
      ]

  -- The permissions to approve are those of the manifest that are not granted, each once.
  pub manifest_ungranted_permissions_v2-keys :
      (m : AppManifest) (granted : List (PermissionRecord json as_grant))
      → Distinct (keys_of (manifest_ungranted_permissions_v2 json as_grant m granted))
        × ((k : PermissionKey)
            → elem k (keys_of (manifest_ungranted_permissions_v2 json as_grant m granted))
              ≡ (elem k (declared_keys m) && not (elem k (granted_keys json as_grant granted))))
  unfolding manifest_ungranted_permissions_v2 all_manifest_permissions_v2
  manifest_ungranted_permissions_v2-keys m granted =
      let all_declared = all_permissions json as_grant m.consumes_services_v2 in
      (
        unseen-Distinct all_declared (granted_keys json as_grant granted),
        λ k. elem-unseen k all_declared (granted_keys json as_grant granted),
      )

  keys_of-filter :
      (k : PermissionKey) (keys : List PermissionKey) (pgs : Grants)
      → elem k (keys_of (filter (not_in json as_grant keys) pgs))
        ≡ (elem k (keys_of pgs) && not (elem k keys))
  unfolding not_in permission_key
  keys_of-filter k keys [] = refl
  keys_of-filter k keys (pg ∷ pgs) = elim (Bool-cases (elem (grant_key json as_grant pg) keys)) [
    | inl inside ↦
        rw (inside, keys_of-filter k keys pgs)
          (and_of_absorbed (k == grant_key json as_grant pg) (elem k (keys_of pgs)) (elem k keys)
            (λ same. elem-same k (grant_key json as_grant pg) keys same ∙ inside))
    | inr outside ↦
        rw (outside, keys_of-filter k keys pgs)
          (and_of_kept (k == grant_key json as_grant pg) (elem k (keys_of pgs)) (elem k keys)
            (λ same. elem-same k (grant_key json as_grant pg) keys same ∙ outside))
  ]

  -- An update asks for the permissions that its manifest declares, that are not granted, and that the
  -- manifest before it, which is parsed, did not declare: one that the owner has revoked is not asked for
  -- again.
  pub manifest_newly_declared_permissions_v2-keys :
      (parse : Text → Result ManifestError AppManifest) (m previous : AppManifest)
      (granted : List (PermissionRecord json as_grant)) (c : ℕ) (raw : Text)
      → parse (c ∷ raw) ≡ ok previous
      → (asked : List (PermissionGrant json as_grant)) × (manifest_newly_declared_permissions_v2
            json as_grant parse m granted
            (some (c ∷ raw))
          ≡ ok asked)
        × ((k : PermissionKey)
            → elem k (keys_of asked) ≡ (
                (elem k (declared_keys m) && not (elem k (granted_keys json as_grant granted)))
                && not (elem k (declared_keys previous))))
  unfolding manifest_newly_declared_permissions_v2 without_previous previously_declared
      permission_key
  manifest_newly_declared_permissions_v2-keys parse m previous granted c raw parsed = (
    filter (not_in json as_grant (previously_declared json as_grant previous))
        (manifest_ungranted_permissions_v2 json as_grant m granted),
    ap (without_previous json as_grant (manifest_ungranted_permissions_v2 json as_grant m granted))
        parsed,
    λ k.
        keys_of-filter k (declared_keys previous)
          (manifest_ungranted_permissions_v2 json as_grant m granted)
        ∙ ap (λ b. b && not (elem k (declared_keys previous)))
            ((manifest_ungranted_permissions_v2-keys m granted).1 k),
  )

  -- With a manifest before it that is refused by a `ValueError`, an update asks for all permissions that
  -- are not granted.
  pub manifest_newly_declared_permissions_v2_refused :
      (parse : Text → Result ManifestError AppManifest) (m : AppManifest)
      (granted : List (PermissionRecord json as_grant)) (c : ℕ) (raw : Text) (why : ManifestError)
      → parse (c ∷ raw) ≡ raise why
      → is_value_error why ≡ true
      → manifest_newly_declared_permissions_v2 json as_grant parse m granted (some (c ∷ raw))
        ≡ ok (manifest_ungranted_permissions_v2 json as_grant m granted)
  unfolding manifest_newly_declared_permissions_v2 without_previous
  manifest_newly_declared_permissions_v2_refused parse m granted c raw why refused caught =
      rw (refused, caught) refl

  unseen-eq-nil :
      (pgs : Grants) (seen : List PermissionKey)
      → All (λ k. elem k seen ≡ true) (keys_of pgs)
      → unseen json as_grant seen pgs ≡ []
  unfolding unseen permission_key
  unseen-eq-nil [] seen h = refl
  unseen-eq-nil (pg ∷ pgs) seen (old, h) = rw old (unseen-eq-nil pgs seen h)

  -- The records that approving permissions makes.
  abbrev pub approved : Grants → List (PermissionRecord json as_grant)
  approved = map (λ pg. record { service_url = pg.service_url; grant = pg.grant })

  granted_keys-approved :
      (pgs : Grants) (granted : List (PermissionRecord json as_grant))
      → granted_keys json as_grant (approved pgs ++ granted)
        ≡ keys_of pgs ++ granted_keys json as_grant granted
  unfolding granted_keys permission_key
  granted_keys-approved [] granted = refl
  granted_keys-approved (pg ∷ pgs) granted =
      ap (◌∷◌ (grant_key json as_grant pg)) (granted_keys-approved pgs granted)

  -- Once the permissions to approve are granted, nothing is left to approve.
  pub manifest_ungranted_permissions_v2-approved :
      (m : AppManifest) (granted : List (PermissionRecord json as_grant))
      → manifest_ungranted_permissions_v2 json as_grant m
          (approved (manifest_ungranted_permissions_v2 json as_grant m granted) ++ granted)
        ≡ []
  unfolding manifest_ungranted_permissions_v2
  manifest_ungranted_permissions_v2-approved m granted =
      let all_declared = all_permissions json as_grant m.consumes_services_v2 in
      let old = granted_keys json as_grant granted in
      let asked = unseen json as_grant old all_declared in
      unseen-eq-nil all_declared _ (
        All-of_mem _ (keys_of all_declared) (λ k m.
          ap (elem k) (granted_keys-approved asked granted)
          ∙ elem-append k (keys_of asked) old
          ∙ ap (λ b. b || elem k old) (elem-unseen k all_declared old)
          ∙ or_of_and_not (elem k (keys_of all_declared)) (elem k old)
              (elem_of_mem k (keys_of all_declared) m)))
