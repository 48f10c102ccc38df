-- ===== src/Ports/Sync.antt =====
-- _sync_port_mappings of compute_space/src/compute_space/core/apps.py: the port mappings of an app when it
-- is reloaded with another manifest. Labels are unique within an app.
mod Tests
use mathlib.Core.List.{append-nil}
use cloud_in_a_bottle.Shared.{
  ==_refl, Bool, Bool-cases, List, List_eq, Option, Result, String, String_eq, Text, [], ap, arith,
  bind-eq-ok, elem, filter, filter-append, filter-eq-nil, find?, if◌then◌else◌, inl, inr, is_some,
  map, none, not, ok, refl, some, sym, ℕ, ℕ_eq, ◌&&◌, ◌++◌, ◌==◌, ◌>>=◌, ◌∙◌, ◌∷◌, ◌≡◌,
}
use cloud_in_a_bottle.Schema.{PortMapping, App, PortRow}
use cloud_in_a_bottle.Ports.{Tables, PortError, resolve_port_mappings}

-- `existing`, by label.
unfoldable pub existing_rows : String → List PortRow → List PortRow
existing_rows app_id rows = filter (λ r. r.app_id == app_id) rows

unfoldable pub existing_row : List PortRow → Text → Option PortRow
existing_row existing label = find? (λ r. r.label == label) existing

unfoldable pub delete_removed : String → List Text → List PortRow → List PortRow
delete_removed app_id new_labels rows =
    filter (λ r. not ((r.app_id == app_id) && not (elem r.label new_labels))) rows

-- A mapping that the app has already keeps its host port.
unfoldable pub keep_host_port : List PortRow → PortMapping → PortMapping
keep_host_port existing pm = elim (existing_row existing pm.label) [
  | none ↦ pm
  | some r ↦ record pm { host_port = r.host_port }
]

unfoldable pub update_row : String → PortMapping → PortRow → PortRow
update_row app_id pm r =
    if (r.app_id == app_id) && (r.label == pm.label)
    then record r { container_port = pm.container_port; host_port = pm.host_port }
    else r

unfoldable pub store_mapping : String → List PortRow → PortMapping → List PortRow → List PortRow
store_mapping app_id existing pm rows =
    if is_some (existing_row existing pm.label)
    then map (update_row app_id pm) rows
    else rows
      ++ record {
        app_id = app_id;
        label = pm.label;
        container_port = pm.container_port;
        host_port = pm.host_port;
      }
        ∷ []

unfoldable pub store_mappings :
    String → List PortRow → List PortMapping → List PortRow → List PortRow
store_mappings app_id existing [] rows = rows
store_mappings app_id existing (pm ∷ resolved) rows =
    store_mappings app_id existing resolved (store_mapping app_id existing pm rows)

module _ (tcp_binds udp_binds : ℕ → Bool) (shuffle : List ℕ → List ℕ)
    (range_start range_end : ℕ) where
  unfoldable pub sync_port_mappings : String → List PortMapping → Tables → Result PortError Tables
  sync_port_mappings app_id new_mappings db =
      let existing = existing_rows app_id db.mappings in
      let kept = delete_removed app_id (map (λ pm. pm.label) new_mappings) db.mappings in
      resolve_port_mappings tcp_binds udp_binds shuffle range_start range_end
        (record { apps = db.apps; mappings = kept }) (some app_id)
        (map (keep_host_port existing) new_mappings)
      >>= λ resolved.
          ok (record { apps = db.apps; mappings = store_mappings app_id existing resolved kept })

-- The rows of the other apps.
abbrev pub rows_of_others : String → List PortRow → List PortRow
rows_of_others app_id = filter (λ r. not (r.app_id == app_id))

others-delete_removed :
    (app_id : String) (labels : List Text) (rows : List PortRow)
    → rows_of_others app_id (delete_removed app_id labels rows) ≡ rows_of_others app_id rows
unfolding delete_removed
others-delete_removed app_id labels [] = refl
others-delete_removed app_id labels (r ∷ rows) =
    ground (arith, others-delete_removed app_id labels rows)

others-update_row :
    (app_id : String) (pm : PortMapping) (rows : List PortRow)
    → rows_of_others app_id (map (update_row app_id pm) rows) ≡ rows_of_others app_id rows
unfolding update_row
others-update_row app_id pm [] = refl
others-update_row app_id pm (r ∷ rows) = ground (arith, others-update_row app_id pm rows)

others-store_mapping :
    (app_id : String) (existing : List PortRow) (pm : PortMapping) (rows : List PortRow)
    → rows_of_others app_id (store_mapping app_id existing pm rows) ≡ rows_of_others app_id rows
unfolding store_mapping
others-store_mapping app_id existing pm rows =
    let row : PortRow = record {
      app_id = app_id;
      label = pm.label;
      container_port = pm.container_port;
      host_port = pm.host_port;
    } in
    elim (Bool-cases (is_some (existing_row existing pm.label))) [
      | inl there ↦ ground (arith, others-update_row app_id pm rows)
      | inr new ↦
          let added =
            filter-append (λ (r : PortRow). not (r.app_id == app_id)) rows (row ∷ [])
            ∙ ap (λ rs. rows_of_others app_id rows ++ rs)
                (filter-eq-nil (λ (r : PortRow). not (r.app_id == app_id)) (row ∷ [])
                  (ground (arith, ==_refl app_id), tt))
            ∙ append-nil (rows_of_others app_id rows) in
          ground (arith, added)
    ]

others-store_mappings :
    (app_id : String) (existing : List PortRow) (resolved : List PortMapping) (rows : List PortRow)
    → rows_of_others app_id (store_mappings app_id existing resolved rows)
      ≡ rows_of_others app_id rows
unfolding store_mappings
others-store_mappings app_id existing [] rows = refl
others-store_mappings app_id existing (pm ∷ resolved) rows =
    others-store_mappings app_id existing resolved (store_mapping app_id existing pm rows)
    ∙ others-store_mapping app_id existing pm rows

module _ (tcp_binds udp_binds : ℕ → Bool) (shuffle : List ℕ → List ℕ)
    (range_start range_end : ℕ) where
  -- Reloading an app leaves the apps and the port mappings of every other app as they are, in their
  -- order.
  pub sync_port_mappings-others :
      (app_id : String) (new_mappings : List PortMapping) (db after : Tables)
      → sync_port_mappings tcp_binds udp_binds shuffle range_start range_end app_id new_mappings db
        ≡ ok after
      → (after.apps ≡ db.apps)
        × (rows_of_others app_id after.mappings ≡ rows_of_others app_id db.mappings)
  unfolding sync_port_mappings
  sync_port_mappings-others app_id new_mappings db after h =
      let existing = existing_rows app_id db.mappings in
      let labels = map (λ (pm : PortMapping). pm.label) new_mappings in
      let kept = delete_removed app_id labels db.mappings in
      let (resolved, done, same) =
        bind-eq-ok
          (resolve_port_mappings tcp_binds udp_binds shuffle range_start range_end
            (record { apps = db.apps; mappings = kept }) (some app_id)
            (map (keep_host_port existing) new_mappings))
          (λ resolved.
            ok (record { apps = db.apps; mappings = store_mappings app_id existing resolved kept }))
          h in
      let stored : record {
        apps = db.apps;
        mappings = store_mappings app_id existing resolved kept;
      }
          ≡ after =
        cc in
      (
        sym (ap (λ (t : Tables). t.apps) stored),
        sym (ap (λ (t : Tables). rows_of_others app_id t.mappings) stored)
            ∙ others-store_mappings app_id existing resolved kept
            ∙ others-delete_removed app_id labels db.mappings,
      )
