-- ===== src/Services/Install.antt =====
-- Installing another provider of a service: register_services_provided_by_app, with the tables that
-- default_provider_id_for_service reads.

use mathlib.Core.List.{append_assoc, append-nil}
use cloud_in_a_bottle.Shared.{
  All, All-append, All-filter, All-map, Bool, List, List_eq, Option-cases, String, String_eq, [],
  ap, arith, false, filter, filter-append, filter-eq-nil, filter-eq_self, if◌then◌else◌, inl, inr,
  ltb, none, not, ok, refl, sym, ℕ, ℕ_eq, ◌&&◌, ◌++◌, ◌<◌, ◌==◌, ◌>>=◌, ◌∙◌, ◌∷◌, ◌≡◌, ◌≢◌, ◌≤◌,
}
use cloud_in_a_bottle.Schema.{App}
use cloud_in_a_bottle.Services.{
  Packaging, ProviderRow, ProvidedService, Tables, builtin_by_url, providers_of, oldest_from, tied,
  default_row, join_apps, register_services_provided_by_app, insert_provided, replace_provider,
}
use cloud_in_a_bottle.Services.Joined.{
  IsOf, IsOfOthers, join_apps-append, join_apps_old, join_apps_new, join_apps-All,
}
use cloud_in_a_bottle.Services.Incumbent.{
  incumbent_of, incumbent_provider_id, default_provider_id_for_service, keyed, greatest,
}

insert_provided-append :
    (app_id : String) (svcs : List ProvidedService) (olds news : List ProviderRow)
    → IsOfOthers app_id olds
    → IsOf app_id news
    → (added : List ProviderRow) × (insert_provided app_id svcs (olds ++ news) ≡ olds ++ added)
      × IsOf app_id added
unfolding insert_provided replace_provider
insert_provided-append app_id [] olds news others own = (news, refl, own)
insert_provided-append app_id (svc ∷ svcs) olds news others own =
    let row : ProviderRow = record {
      service_url = svc.service;
      app_id = app_id;
      service_version = svc.version;
      endpoint = svc.endpoint;
    } in
    let other_key : ProviderRow → Bool = λ r. not (
      (r.service_url == row.service_url)
      && ((r.app_id == row.app_id) && (r.service_version == row.service_version))) in
    let kept : filter other_key olds ≡ olds =
      filter-eq_self other_key olds (All-map (λ r h. ground arith) olds others) in
    let next : replace_provider row (olds ++ news) ≡ olds ++ (filter other_key news ++ row ∷ []) =
      ap (λ rows. rows ++ row ∷ []) (filter-append other_key olds news)
      ∙ append_assoc (filter other_key olds) (filter other_key news) (row ∷ [])
      ∙ ap (λ rows. rows ++ (filter other_key news ++ row ∷ [])) kept in
    let (added, eq, owned) =
      insert_provided-append app_id svcs olds (filter other_key news ++ row ∷ []) others (
        All-append (λ (r : ProviderRow). r.app_id ≡ app_id) (filter other_key news) (row ∷ [])
          (All-filter other_key (λ (r : ProviderRow). r.app_id ≡ app_id) news own) (refl, tt)) in
    (added, ap (insert_provided app_id svcs) next ∙ eq, owned)

oldest_from-append :
    (oldest : ℕ) (a : App) (rows extra : List (ProviderRow × App))
    → oldest < a.created_at
    → All (λ (c : ProviderRow × App). c.1 ≡ a) extra
    → oldest_from oldest (rows ++ extra) ≡ oldest_from oldest rows
unfolding oldest_from
oldest_from-append oldest a [] [] lt own = refl
oldest_from-append oldest a [] ((r, b) ∷ extra) lt (own, owned) =
    let same : b.created_at ≡ a.created_at = ap (λ (x : App). x.created_at) own in
    ground (arith, oldest_from-append oldest a [] extra lt owned)
oldest_from-append oldest a ((r, b) ∷ rows) extra lt owned =
    let next = if ltb b.created_at oldest then b.created_at else oldest in
    oldest_from-append next a rows extra (ground arith) owned

oldest_from-le : (oldest : ℕ) (rows : List (ProviderRow × App)) → oldest_from oldest rows ≤ oldest
unfolding oldest_from
oldest_from-le oldest [] = omega arith
oldest_from-le oldest ((r, b) ∷ rows) =
    ground (arith, oldest_from-le (if ltb b.created_at oldest then b.created_at else oldest) rows)

-- The rows that the new app adds to those of a service stand behind them.
providers_of-register :
    (service_url : String) (t : Tables) (a : App) (svcs : List ProvidedService)
    → All (λ (b : App). (b.app_id == a.app_id) ≡ false) t.apps
    → IsOfOthers a.app_id t.providers
    → (extra : List (ProviderRow × App)) × (providers_of service_url (
          register_services_provided_by_app a.app_id svcs
            (record { apps = t.apps ++ a ∷ []; providers = t.providers; defaults = t.defaults }))
        ≡ providers_of service_url t ++ extra)
      × All (λ (c : ProviderRow × App). c.1 ≡ a) extra
unfolding providers_of register_services_provided_by_app
providers_of-register service_url t a svcs new no_rows =
    let of_service : ProviderRow → Bool = λ r. r.service_url == service_url in
    let others : ProviderRow → Bool = λ r. not (r.app_id == a.app_id) in
    let apps = t.apps ++ a ∷ [] in
    let kept : filter others t.providers ≡ t.providers =
      filter-eq_self others t.providers (All-map (λ r h. ground arith) t.providers no_rows) in
    let (added, inserted, own) = insert_provided-append a.app_id svcs t.providers [] no_rows tt in
    let rows : insert_provided a.app_id svcs (filter others t.providers) ≡ t.providers ++ added =
      ap (insert_provided a.app_id svcs) (kept ∙ sym (append-nil t.providers)) ∙ inserted in
    (
      join_apps apps (filter of_service added),
      ap (λ rs. join_apps apps (filter of_service rs)) rows
          ∙ ap (join_apps apps) (filter-append of_service t.providers added)
          ∙ join_apps-append apps (filter of_service t.providers) (filter of_service added)
          ∙ ap (λ js. js ++ join_apps apps (filter of_service added))
              (join_apps_old t.apps a (filter of_service t.providers) (
                All-filter of_service (λ (r : ProviderRow). (r.app_id == a.app_id) ≡ false)
                  t.providers no_rows)),
      join_apps_new t.apps a (filter of_service added) new
          (All-filter of_service (λ (r : ProviderRow). r.app_id ≡ a.app_id) added own),
    )

module _ (packaging : Packaging) where
  -- Rows of an app that was installed later do not move the service.
  incumbent_of-append :
      (rows extra : List (ProviderRow × App)) (a : App)
      → All (λ (c : ProviderRow × App). c.1.created_at < a.created_at) rows
      → All (λ (c : ProviderRow × App). c.1 ≡ a) extra
      → incumbent_of packaging rows ≢ ok none
      → incumbent_of packaging (rows ++ extra) ≡ incumbent_of packaging rows
  unfolding incumbent_of tied
  incumbent_of-append [] extra a lt own served = absurd (served refl)
  incumbent_of-append ((r, b) ∷ rows) extra a (lt, lts) own served =
      let all_rows = (r, b) ∷ rows in
      let oldest = oldest_from b.created_at rows in
      let at_oldest : ProviderRow × App → Bool = λ c. c.1.created_at == oldest in
      let low = oldest_from-le b.created_at rows in
      let none_tied : filter at_oldest extra ≡ [] = filter-eq-nil at_oldest extra (
        All-map
          (λ (c : ProviderRow × App) (h : c.1 ≡ a).
            let same : c.1.created_at ≡ a.created_at = ap (λ (x : App). x.created_at) h in
            ground (arith, low))
          extra own) in
      let tied_same : tied oldest (all_rows ++ extra) ≡ tied oldest all_rows =
        filter-append at_oldest all_rows extra
        ∙ ap (λ ys. filter at_oldest all_rows ++ ys) none_tied
        ∙ append-nil (filter at_oldest all_rows) in
      ap
        (λ o. keyed packaging (tied o (all_rows ++ extra)) >>= λ keys. ok (greatest packaging keys))
        (oldest_from-append b.created_at a rows extra lt own)
      ∙ ap (λ ts. keyed packaging ts >>= λ keys. ok (greatest packaging keys)) tied_same

  -- Installing an app that provides a service does not move the service off the provider that
  -- serves it, whatever versions the new app provides: for an app whose id is new, installed later
  -- than every app so far, and a service that had a provider.
  pub default_provider-register :
      (service_url : String) (t : Tables) (a : App) (svcs : List ProvidedService)
      → All (λ (b : App). (b.app_id == a.app_id) ≡ false) t.apps
      → All (λ (r : ProviderRow). (r.app_id == a.app_id) ≡ false) t.providers
      → All (λ (b : App). b.created_at < a.created_at) t.apps
      → default_provider_id_for_service packaging service_url t ≢ ok none
      → default_provider_id_for_service packaging service_url (
          register_services_provided_by_app a.app_id svcs
            (record { apps = t.apps ++ a ∷ []; providers = t.providers; defaults = t.defaults }))
        ≡ default_provider_id_for_service packaging service_url t
  unfolding default_provider_id_for_service incumbent_provider_id register_services_provided_by_app
      providers_of default_row
  default_provider-register service_url t a svcs new no_rows later served =
      let (extra, rows, own) = providers_of-register service_url t a svcs new no_rows in
      let earlier =
        join_apps-All (λ b. b.created_at < a.created_at) t.apps
          (filter (λ (r : ProviderRow). r.service_url == service_url) t.providers) later in
      let stays = incumbent_of-append (providers_of service_url t) extra a earlier own in
      elim (Option-cases (default_row service_url t)) [
        | inr (row, chosen) ↦ ground arith
        | inl free ↦ elim (Option-cases (builtin_by_url service_url)) [
          | inr (b, builtin) ↦ ground arith
          | inl external ↦ ground (arith, rows, stays)
        ]
      ]
