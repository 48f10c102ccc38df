-- ===== src/Services/Defaults.antt =====
-- set_default and clear_default of compute_space/src/compute_space/core/service_interface/services.py,
-- against what default_provider_id_for_service reads back.
use cloud_in_a_bottle.Shared.{
  ==_iff, ==_refl, Bool, Bool-cases, List, List_eq, Option-cases, String, String_eq, [], arith,
  false, filter, find?, inl, inr, none, not, ok, refl, some, true, ℕ_eq, ◌++◌, ◌==◌, ◌∷◌, ◌≡◌,
}
use cloud_in_a_bottle.Services.{
  Packaging, DefaultRow, Tables, router_app_id, builtin_by_url, providers_of, default_row,
  clear_default, insert_default, set_default,
}
use cloud_in_a_bottle.Services.Incumbent.{incumbent_provider_id, default_provider_id_for_service}

module _ (service_url : String) where
  abbrev of_service : DefaultRow → Bool
  of_service d = d.service_url == service_url

  abbrev of_others : DefaultRow → Bool
  of_others d = not (d.service_url == service_url)

  default_row_cleared : (rows : List DefaultRow) → find? of_service (filter of_others rows) ≡ none
  default_row_cleared [] = refl
  default_row_cleared (d ∷ rows) = ground (arith, default_row_cleared rows)

  default_row_inserted :
      (rows : List DefaultRow) (d : DefaultRow)
      → of_service d ≡ true
      → find? of_service (filter of_others rows ++ d ∷ []) ≡ some d
  default_row_inserted [] d h = ground arith
  default_row_inserted (r ∷ rows) d h = ground (arith, default_row_inserted rows d h)

  default_row_other :
      (other : String) (rows : List DefaultRow)
      → (service_url == other) ≡ false
      → find? (λ (d : DefaultRow). d.service_url == other) (filter of_others rows)
        ≡ find? (λ (d : DefaultRow). d.service_url == other) rows
  default_row_other other [] h = refl
  default_row_other other (r ∷ rows) h = ground (
    arith,
    default_row_other other rows h,
    ==_iff r.service_url other,
    ==_iff r.service_url service_url,
    ==_iff service_url other,
  )

  default_row_other_inserted :
      (other : String) (rows : List DefaultRow) (d : DefaultRow)
      → (d.service_url == other) ≡ false
      → find? (λ (r : DefaultRow). r.service_url == other) (rows ++ d ∷ [])
        ≡ find? (λ (r : DefaultRow). r.service_url == other) rows
  default_row_other_inserted other [] d h = ground arith
  default_row_other_inserted other (r ∷ rows) d h =
      ground (arith, default_row_other_inserted other rows d h)

module _ (packaging : Packaging) where
  -- The provider that the owner picked, the router included, serves the service by default, and every
  -- other service keeps its default provider.
  pub set_default-default_provider :
      (service_url app_id : String) (t after : Tables)
      → set_default service_url app_id t ≡ ok after
      → (default_provider_id_for_service packaging service_url after ≡ ok (some app_id))
        × ((other : String)
            → (service_url == other) ≡ false
            → default_provider_id_for_service packaging other after
              ≡ default_provider_id_for_service packaging other t)
  unfolding default_provider_id_for_service incumbent_provider_id set_default insert_default
      clear_default default_row providers_of
  set_default-default_provider service_url app_id t after h =
      elim (Bool-cases (app_id == router_app_id)) [
        | inl router ↦ elim (Option-cases (builtin_by_url service_url)) [
          | inl external ↦ absurd (ground arith)
          | inr (b, builtin) ↦
              let is : clear_default service_url t ≡ after = ground arith in
              rw (← is) (
                ground (
                  arith,
                  ==_iff app_id router_app_id,
                  default_row_cleared service_url t.defaults,
                ),
                λ other apart. ground (arith, default_row_other service_url other t.defaults apart),
              )
        ]
        | inr app ↦
            let is : insert_default service_url app_id t ≡ after = ground arith in
            let row : DefaultRow = record { service_url = service_url; app_id = app_id } in
            rw (← is) (
              ground (arith, default_row_inserted service_url t.defaults row (==_refl service_url)),
              λ other apart. ground (
                arith,
                default_row_other service_url other t.defaults apart,
                default_row_other_inserted service_url other
                    (filter (of_others service_url) t.defaults) row apart,
              ),
            )
      ]
