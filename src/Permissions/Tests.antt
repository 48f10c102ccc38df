-- ===== src/Permissions/Tests.antt =====
-- Tests of the permissions, and their theorems at concrete grants, which are texts.
use cloud_in_a_bottle.Shared.{List_eq, String_eq, Text, [], codes, none, refl, ℕ_eq, ◌∷◌, ◌≡◌}
use cloud_in_a_bottle.Permissions.{
  Json, Store, provider_text, provider_or_none, permission_row, get_granted_permissions_v2,
}

abbrev texts : Json
texts = record { Grant = Text; dumps = λ g. g; loads = λ s. s; loads-dumps = λ g. refl }

abbrev notes : Text
notes = codes "notes"

abbrev secrets : Text
secrets = codes "secrets"

abbrev key : Text
key = codes "DB_URL"

abbrev empty : Store
empty = record { app_ids = notes ∷ []; permissions = [] }

abbrev granted_store : Store
granted_store = record {
  app_ids = notes ∷ [];
  permissions = permission_row texts notes secrets key (codes "global") none ∷ [];
}

query_test :
    get_granted_permissions_v2 texts notes secrets granted_store
    ≡ record { grant = key; scope = codes "global"; provider_app_id = none } ∷ []
unfolding get_granted_permissions_v2 provider_or_none provider_text
query_test = refl
