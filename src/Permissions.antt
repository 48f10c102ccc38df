-- ===== src/Permissions.antt =====
-- compute_space/src/compute_space/core/auth/permissions_v2.py: what apps may do with the services of
-- others. `json` is a parameter.
pub mod Granted
pub mod Query
mod Tests
use cloud_in_a_bottle.Shared.{
  Bool, List, List_eq, Option, Result, String_eq, Text, [], any, codes, elem, filter, if◌then◌else◌,
  map, none, not, ok, raise, some, ℕ_eq, ◌&&◌, ◌++◌, ◌==◌, ◌||◌, ◌∷◌, ◌≡◌,
}

-- Reading gives back what was written.
pub record Json : Type 1 where
  pub Grant : Type 0
  pub dumps : Grant → Text
  pub loads : Text → Grant
  pub loads-dumps : (g : Grant) → loads (dumps g) ≡ g

-- A row of permissions_v2, whose columns are its key.
pub record PermissionRow : Type 0 where
  pub consumer_app_id : Text
  pub service_url : Text
  pub grant_payload : Text
  pub scope : Text
  pub provider_app_id : Text

pub record Store : Type 0 where
  pub app_ids : List Text
  pub permissions : List PermissionRow

pub data IntegrityError : Type 0 where
  foreign_key : IntegrityError

unfoldable pub same_row : PermissionRow → PermissionRow → Bool
same_row x y =
    (x.consumer_app_id == y.consumer_app_id)
    && ((x.service_url == y.service_url)
        && ((x.grant_payload == y.grant_payload)
            && ((x.scope == y.scope) && (x.provider_app_id == y.provider_app_id))))

-- `CHECK(scope IN ('global', 'app'))`
unfoldable pub is_scope : Text → Bool
is_scope scope = (scope == codes "global") || (scope == codes "app")

-- `provider_app_id or ""`, and `row["provider_app_id"] or None`.
unfoldable pub provider_text : Option Text → Text
provider_text none = []
provider_text (some id) = id

unfoldable pub provider_or_none : Text → Option Text
provider_or_none [] = none
provider_or_none (c ∷ s) = some (c ∷ s)

-- `INSERT OR IGNORE`: a row that is there, or that the check refuses, is passed over; one of a
-- consumer that is no app raises.
unfoldable pub insert_or_ignore : PermissionRow → Store → Result IntegrityError Store
insert_or_ignore row s =
    if any (same_row row) s.permissions || not (is_scope row.scope)
    then ok s
    else if elem row.consumer_app_id s.app_ids
    then ok (record { app_ids = s.app_ids; permissions = s.permissions ++ row ∷ [] })
    else raise foreign_key

module _ (json : Json) where
  open json use {Grant, dumps, loads}

  pub record GrantedPermission : Type 0 where
    pub grant : Grant
    pub scope : Text
    pub provider_app_id : Option Text

  abbrev pub permission_row : Text → Text → Grant → Text → Option Text → PermissionRow
  permission_row consumer_app_id service_url grant_payload scope provider_app_id = record {
    consumer_app_id = consumer_app_id;
    service_url = service_url;
    grant_payload = dumps grant_payload;
    scope = scope;
    provider_app_id = provider_text provider_app_id;
  }

  abbrev pub granted : PermissionRow → GrantedPermission
  granted r = record {
    grant = loads r.grant_payload;
    scope = r.scope;
    provider_app_id = provider_or_none r.provider_app_id;
  }

  unfoldable pub get_granted_permissions_v2 : Text → Text → Store → List GrantedPermission
  get_granted_permissions_v2 consumer_app_id service_url s = map granted (
      filter
        (λ (r : PermissionRow).
          (r.consumer_app_id == consumer_app_id) && (r.service_url == service_url))
        s.permissions)

  unfoldable pub grant_permission_v2 :
      Text → Text → Grant → Text → Option Text → Store → Result IntegrityError Store
  grant_permission_v2 consumer_app_id service_url grant_payload scope provider_app_id s =
      insert_or_ignore
        (permission_row consumer_app_id service_url grant_payload scope provider_app_id) s

  -- Whether a row was deleted, and the store.
  unfoldable pub revoke_permission_v2 :
      Text → Text → Grant → Text → Option Text → Store → Bool × Store
  revoke_permission_v2 consumer_app_id service_url grant_payload scope provider_app_id s =
      let row = permission_row consumer_app_id service_url grant_payload scope provider_app_id in
      (
        any (same_row row) s.permissions,
        record {
          app_ids = s.app_ids;
          permissions = filter (λ r. not (same_row row r)) s.permissions;
        },
      )
