-- ===== src/Ports/Sync/Tests.antt =====
-- A reload of an app that drops one port, keeps one and asks for another.
use cloud_in_a_bottle.Shared.{
  Bool, List, List_eq, String, String_eq, Text, [], codes, ok, refl, true, ℕ, ℕ_eq, ◌∷◌, ◌≡◌,
}
use cloud_in_a_bottle.Schema.{PortMapping, PortRow}
use cloud_in_a_bottle.Ports.{
  Tables, resolve_port_mappings, fixed_pass, auto_pass, check_port_available, find_free_host_port,
  first_free, port_range, port_is_bindable, port_reserved_by_app,
}
use cloud_in_a_bottle.Ports.Sync.{
  existing_rows, existing_row, delete_removed, keep_host_port, update_row, store_mapping,
  store_mappings, sync_port_mappings, rows_of_others, sync_port_mappings-others,
}

abbrev binds : ℕ → Bool
binds port = true

abbrev same_order : List ℕ → List ℕ
same_order ports = ports

abbrev row_of : String → Text → ℕ → PortRow
row_of app_id label host_port = record {
  app_id = app_id;
  label = label;
  container_port = 80;
  host_port = host_port;
}

abbrev asks : Text → PortMapping
asks label = record { label = label; container_port = 80; host_port = 0 }

abbrev before_reload : Tables
before_reload = record {
  apps = [];
  mappings =
      row_of "wiki" (codes "web") 9000
      ∷ row_of "game" (codes "old") 9001
      ∷ row_of "game" (codes "udp") 9002
      ∷ [];
}

abbrev after_reload : Tables
after_reload = record {
  apps = [];
  mappings =
      row_of "wiki" (codes "web") 9000
      ∷ row_of "game" (codes "udp") 9002
      ∷ row_of "game" (codes "new") 9001
      ∷ [];
}

reload_test :
    sync_port_mappings binds binds same_order 9000 9999 "game"
      (asks (codes "udp") ∷ asks (codes "new") ∷ [])
      before_reload
    ≡ ok after_reload
unfolding sync_port_mappings existing_rows existing_row delete_removed keep_host_port update_row
    store_mapping store_mappings resolve_port_mappings fixed_pass auto_pass check_port_available
    find_free_host_port first_free port_range port_is_bindable port_reserved_by_app
reload_test = refl

sync_port_mappings-others_example :
    (after_reload.apps ≡ before_reload.apps)
    × (rows_of_others "game" after_reload.mappings ≡ rows_of_others "game" before_reload.mappings)
sync_port_mappings-others_example =
    sync_port_mappings-others binds binds same_order 9000 9999 "game"
      (asks (codes "udp") ∷ asks (codes "new") ∷ []) before_reload after_reload reload_test
