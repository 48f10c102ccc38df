-- ===== src/Permissions/Granted.antt =====
-- Grants and revocations of compute_space/src/compute_space/core/auth/permissions_v2.py.
use mathlib.Core.List.{append-nil}
use cloud_in_a_bottle.Shared.{
  ==_refl, All-map, Bool, Bool-cases, List, List_eq, Option, String_eq, Text, [], any,
  any-eq-false_iff, ap, arith, elem, false, filter, filter-append, filter-eq-nil, filter-eq_self,
  inl, inr, not, ok, true, ℕ_eq, ◌++◌, ◌||◌, ◌∙◌, ◌∷◌, ◌≡◌,
}
use cloud_in_a_bottle.Permissions.{
  Json, PermissionRow, Store, same_row, is_scope, insert_or_ignore, permission_row,
  grant_permission_v2, revoke_permission_v2,
}

same_row_refl : (r : PermissionRow) → same_row r r ≡ true
unfolding same_row
same_row_refl r = ground (
  arith,
  ==_refl r.consumer_app_id,
  ==_refl r.service_url,
  ==_refl r.grant_payload,
  ==_refl r.scope,
  ==_refl r.provider_app_id,
)

module _ (json : Json) (consumer service : Text) (payload : json.Grant) (scope : Text)
    (provider : Option Text) where
  abbrev row : PermissionRow
  row = permission_row json consumer service payload scope provider

  any-snoc : (rows : List PermissionRow) → any (same_row row) (rows ++ row ∷ []) ≡ true
  any-snoc [] = ground (arith, same_row_refl row)
  any-snoc (r ∷ rows) = ground (arith, any-snoc rows)

  -- A grant that is made twice is made once.
  pub grant_permission_v2-idempotent :
      (s after : Store)
      → grant_permission_v2 json consumer service payload scope provider s ≡ ok after
      → grant_permission_v2 json consumer service payload scope provider after ≡ ok after
  unfolding grant_permission_v2 insert_or_ignore
  grant_permission_v2-idempotent s after h =
      elim (Bool-cases (any (same_row row) s.permissions || not (is_scope scope))) [
        | inl ignored ↦ let same : s ≡ after = ground arith in rw (← same) (ground arith)
        | inr new ↦ elim (Bool-cases (elem consumer s.app_ids)) [
          | inr missing ↦ absurd (ground arith)
          | inl known ↦
              let same : record { app_ids = s.app_ids; permissions = s.permissions ++ row ∷ [] }
                  ≡ after =
                ground arith in
              rw (← same) (ground (arith, any-snoc s.permissions))
        ]
      ]

  not_same :
      (rows : List PermissionRow)
      → any (same_row row) rows ≡ false
      → filter (λ r. not (same_row row r)) rows ≡ rows
  not_same rows absent =
      filter-eq_self (λ r. not (same_row row r)) rows
        (All-map (λ r h. ground arith) rows ((any-eq-false_iff (same_row row) rows).0 absent))

  -- Revoking a grant that was just made, and was not there before, deletes a row and leaves the store as
  -- it was: for an installed consumer and a scope that the table admits.
  pub revoke-grant_permission_v2 :
      (s : Store)
      → elem consumer s.app_ids ≡ true
      → is_scope scope ≡ true
      → any (same_row (permission_row json consumer service payload scope provider)) s.permissions
        ≡ false
      → (after : Store) × (grant_permission_v2 json consumer service payload scope provider s
          ≡ ok after)
        × (revoke_permission_v2 json consumer service payload scope provider after ≡ (true, s))
  unfolding grant_permission_v2 insert_or_ignore revoke_permission_v2
  revoke-grant_permission_v2 s known admitted absent =
      let keeps : PermissionRow → Bool = λ r. not (same_row row r) in
      let back : filter keeps (s.permissions ++ row ∷ []) ≡ s.permissions =
        filter-append keeps s.permissions (row ∷ [])
        ∙ ap (λ rows. rows ++ filter keeps (row ∷ [])) (not_same s.permissions absent)
        ∙ ap (λ rows. s.permissions ++ rows)
            (filter-eq-nil keeps (row ∷ []) (ground (arith, same_row_refl row), tt))
        ∙ append-nil s.permissions in
      (
        record { app_ids = s.app_ids; permissions = s.permissions ++ row ∷ [] },
        ground arith,
        ap
              (λ (b : Bool). (
                b,
                record {
                  app_ids = s.app_ids;
                  permissions = filter keeps (s.permissions ++ row ∷ []);
                },
              ))
              (any-snoc s.permissions)
            ∙ ap
                (λ (rows : List PermissionRow).
                  (true, record { app_ids = s.app_ids; permissions = rows }))
                back,
      )
