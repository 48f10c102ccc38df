-- ===== src/Manifests/Declared.antt =====
-- Which permissions of a manifest an owner has still to approve: all_manifest_permissions_v2,
-- manifest_ungranted_permissions_v2 and manifest_newly_declared_permissions_v2 of
-- compute_space/src/compute_space/core/manifest.py. A grant is the value itself to Python: `as_grant` is that
-- reading of a TOML value.
pub mod Approved
use cloud_in_a_bottle.Shared.{
  ==_iff, Bool, Eq, List, List_eq, Option, Result, String_eq, Text, [], arith, elem, false, filter,
  if◌then◌else◌, map, none, not, ok, raise, some, true, ℕ_eq, ◌&&◌, ◌++◌, ◌==◌, ◌↔◌, ◌∷◌, ◌≡◌,
}
use cloud_in_a_bottle.Manifests.Toml.{Toml, ManifestError, keys, no_attribute, wrong_type}
use cloud_in_a_bottle.Manifests.Services.{ServiceProvides, ServiceConsumes}
use cloud_in_a_bottle.Manifests.Parsed.{AppManifest}
use cloud_in_a_bottle.Permissions.{Json, granted}

abbrev pub PermissionKey : Type 0
PermissionKey = Text × Text

abbrev pub same_key : PermissionKey → PermissionKey → Bool
same_key (url, grant) (other_url, other_grant) = (url == other_url) && (grant == other_grant)

pub same_key_iff : (k l : PermissionKey) → (same_key k l ≡ true) ↔ (k ≡ l)
same_key_iff (u, g) (v, h) = ground (arith, ==_iff u v, ==_iff g h)

instance abbrev pub PermissionKey_eq : Eq PermissionKey
PermissionKey_eq = record { same = same_key; same_iff = same_key_iff }

-- `ValueError`, and not `AttributeError` or `TypeError`.
unfoldable pub is_value_error : ManifestError → Bool
is_value_error no_attribute = false
is_value_error wrong_type = false
is_value_error _ = true

module _ (json : Json) (as_grant : Toml → json.Grant) where
  pub record PermissionGrant : Type 0 where
    pub service_url : Text
    pub grant : json.Grant

  -- What the code reads of a row of the permissions.
  pub record PermissionRecord : Type 0 where
    pub service_url : Text
    pub grant : json.Grant

  unfoldable pub permission_key : Text → json.Grant → PermissionKey
  permission_key service_url grant = (service_url, json.dumps grant)

  abbrev pub grant_key : PermissionGrant → PermissionKey
  grant_key pg = (pg.service_url, json.dumps pg.grant)

  unfoldable pub permissions_of : ServiceConsumes → List PermissionGrant
  permissions_of perm =
      map (λ g. record { service_url = perm.service; grant = as_grant g }) perm.grants

  unfoldable pub all_permissions : List ServiceConsumes → List PermissionGrant
  all_permissions [] = []
  all_permissions (perm ∷ perms) = permissions_of perm ++ all_permissions perms

  unfoldable pub all_manifest_permissions_v2 : AppManifest → List PermissionGrant
  all_manifest_permissions_v2 m = all_permissions m.consumes_services_v2

  -- The loop over the grants of the manifest, with the keys that were seen.
  unfoldable pub unseen : List PermissionKey → List PermissionGrant → List PermissionGrant
  unseen seen [] = []
  unseen seen (pg ∷ pgs) =
      let key = permission_key pg.service_url pg.grant in
      if elem key seen then unseen seen pgs else pg ∷ unseen (key ∷ seen) pgs

  unfoldable pub granted_keys : List PermissionRecord → List PermissionKey
  granted_keys granted = map (λ rec. permission_key rec.service_url rec.grant) granted

  unfoldable pub manifest_ungranted_permissions_v2 :
      AppManifest → List PermissionRecord → List PermissionGrant
  manifest_ungranted_permissions_v2 m granted =
      unseen (granted_keys granted) (all_permissions m.consumes_services_v2)

  unfoldable pub not_in : List PermissionKey → PermissionGrant → Bool
  not_in keys pg = not (elem (permission_key pg.service_url pg.grant) keys)

  unfoldable pub previously_declared : AppManifest → List PermissionKey
  previously_declared previous =
      map (λ pg. permission_key pg.service_url pg.grant) (all_manifest_permissions_v2 previous)

  -- What the attempt to parse the deployed text leaves of the permissions: a `ValueError` is caught.
  unfoldable pub without_previous :
      List PermissionGrant
      → Result ManifestError AppManifest
      → Result ManifestError (List PermissionGrant)
  without_previous ungranted (raise why) = if is_value_error why then ok ungranted else raise why
  without_previous ungranted (ok previous) =
      ok (filter (not_in (previously_declared previous)) ungranted)

  unfoldable pub manifest_newly_declared_permissions_v2 :
      (Text → Result ManifestError AppManifest)
      → AppManifest
      → List PermissionRecord
      → Option Text
      → Result ManifestError (List PermissionGrant)
  manifest_newly_declared_permissions_v2 parse m granted none =
      ok (manifest_ungranted_permissions_v2 m granted)
  manifest_newly_declared_permissions_v2 parse m granted (some []) =
      ok (manifest_ungranted_permissions_v2 m granted)
  manifest_newly_declared_permissions_v2 parse m granted (some (c ∷ raw)) =
      without_previous (manifest_ungranted_permissions_v2 m granted) (parse (c ∷ raw))
