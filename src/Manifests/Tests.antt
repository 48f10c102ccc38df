-- ===== src/Manifests/Tests.antt =====
-- A manifest that is parsed, and the properties of manifests at it. Grants are texts here.
use cloud_in_a_bottle.Shared.{
  All, Distinct, List, List_eq, Option, Result, String_eq, Text, Text_order, [], codes, elem, false,
  if◌then◌else◌, is_space, length, lstrip, none, not, ok, raise, refl, remove_prefix, rstrip, some,
  starts_with, strip, true, upper, ℕ, ℕ_eq, ◌&&◌, ◌++◌, ◌==◌, ◌↔◌, ◌∷◌, ◌≡◌,
}
use cloud_in_a_bottle.Schema.{PortMapping}
use cloud_in_a_bottle.Permissions.{Json}
use cloud_in_a_bottle.Services.{Packaging}
use cloud_in_a_bottle.Manifests.Toml.{
  Toml, ManifestError, Tomls, array, as_int, as_list, as_natural, as_string, as_table, boolean,
  duplicate_host_port, end_of_array, end_of_table, field, get, get_or, integer, is_zero, item,
  items, iterate, lookup, natural, non_empty_text, or_default, pos, privileged_host_port, string,
  table, text_field, truth,
}
use cloud_in_a_bottle.Manifests.Ports.{
  parse_ports, add_host_port, container_port_field, host_port_field, parse_port, parse_ports_from,
  seen_after,
}
use cloud_in_a_bottle.Manifests.Ports.Accepted.{DeclaresAll}
use cloud_in_a_bottle.Manifests.Ports.Unique.{IsUnique, parse_ports_iff}
use cloud_in_a_bottle.Manifests.Container.{
  capability_name, each, eight_slots, parse_links, safe_capabilities, safe_device_paths,
  validate_capabilities, validate_capability, validate_devices,
}
use cloud_in_a_bottle.Manifests.Container.Safe.{strings, validate_capabilities-IsSafe}
use cloud_in_a_bottle.Manifests.Services.{
  at_end_of_line, check_consumed, is_grant, matches_shortname, normalize_service_url,
  parse_consumed, parse_consumed_from, parse_grant, parse_services_v2, parse_services_v2_consumes,
  rstrip_slashes, services_v2, shortname_rest, structure_list,
}
use cloud_in_a_bottle.Manifests.Parsed.{
  AppManifest, build_manifest, parse_app, parse_container, parse_cpu_cores, parse_data,
  parse_data_section, parse_manifest_from_string, parse_resources, parse_routing,
}
use cloud_in_a_bottle.Manifests.Sections.{
  checked_container, either, is_container, is_runtime_type, read_sections, section_of, truthy,
}
use cloud_in_a_bottle.Manifests.Declared.{
  PermissionKey, PermissionKey_eq, PermissionGrant, PermissionRecord, granted_keys,
  manifest_newly_declared_permissions_v2, manifest_ungranted_permissions_v2,
}
use cloud_in_a_bottle.Manifests.Declared.Approved.{
  keys_of, approved, declared_keys, manifest_newly_declared_permissions_v2-keys,
  manifest_ungranted_permissions_v2-approved, manifest_ungranted_permissions_v2-keys,
}

abbrev of_list : List Toml → Tomls
of_list [] = end_of_array
of_list (value ∷ values) = item value (of_list values)

abbrev port_entry : Text → ℕ → ℕ → Toml
port_entry label cport hport = table (
    field (codes "label") (string label) (
      field (codes "container_port") (integer (pos cport))
        (field (codes "host_port") (integer (pos hport)) end_of_table)))

abbrev port_entries : List Toml
port_entries = port_entry (codes "dns") 53 0 ∷ port_entry (codes "game") 70 9004 ∷ []

abbrev mapping : Text → ℕ → ℕ → PortMapping
mapping label cport hport = record { label = label; container_port = cport; host_port = hport }

abbrev mappings : List PortMapping
mappings = mapping (codes "dns") 53 0 ∷ mapping (codes "game") 70 9004 ∷ []

ports_test : parse_ports port_entries ≡ ok mappings
unfolding parse_ports parse_ports_from parse_port text_field lookup as_table as_string as_natural
    as_int natural non_empty_text container_port_field host_port_field or_default seen_after
    add_host_port
ports_test = refl

privileged_test : parse_ports (port_entry (codes "ssh") 22 22 ∷ []) ≡ raise privileged_host_port
unfolding parse_ports parse_ports_from parse_port text_field lookup as_table as_string as_natural
    as_int natural non_empty_text container_port_field host_port_field or_default seen_after
    add_host_port
privileged_test = refl

duplicate_test :
    parse_ports (port_entry (codes "a") 1 9004 ∷ port_entry (codes "b") 2 9004 ∷ [])
    ≡ raise duplicate_host_port
unfolding parse_ports parse_ports_from parse_port text_field lookup as_table as_string as_natural
    as_int natural non_empty_text container_port_field host_port_field or_default seen_after
    add_host_port
duplicate_test = refl

parse_ports_iff_example :
    (parse_ports port_entries ≡ ok mappings)
    ↔ (DeclaresAll port_entries mappings × IsUnique mappings)
parse_ports_iff_example = parse_ports_iff port_entries mappings

abbrev caps : Toml
caps = array (of_list (string (codes " cap_net_admin") ∷ string (codes "KILL") ∷ []))

caps_test : validate_capabilities caps ≡ ok (codes "NET_ADMIN" ∷ codes "KILL" ∷ [])
unfolding validate_capabilities each validate_capability capability_name as_list items as_string
    remove_prefix upper strip lstrip rstrip is_space starts_with
caps_test = refl

validate_capabilities-IsSafe_example :
    All (λ name. elem name safe_capabilities ≡ true) (codes "NET_ADMIN" ∷ codes "KILL" ∷ [])
    × (validate_capabilities (array (strings (codes "NET_ADMIN" ∷ codes "KILL" ∷ [])))
        ≡ ok (codes "NET_ADMIN" ∷ codes "KILL" ∷ []))
validate_capabilities-IsSafe_example =
    validate_capabilities-IsSafe caps (codes "NET_ADMIN" ∷ codes "KILL" ∷ []) caps_test

devices_test : length safe_device_paths ≡ 26
unfolding safe_device_paths eight_slots
devices_test = refl

shortname_test :
    (matches_shortname (codes "db-1") ≡ true) × (matches_shortname (codes "1db") ≡ false)
unfolding matches_shortname shortname_rest at_end_of_line
shortname_test = (refl, refl)

abbrev texts : Json
texts = record { Grant = Text; dumps = λ g. g; loads = λ s. s; loads-dumps = λ g. refl }

abbrev grant_text : Toml → Text
grant_text (string s) = s
grant_text _ = []

abbrev any_version : Packaging
any_version = record {
  Version = Text;
  SpecifierSet = Text;
  parse_version = λ s. some s;
  parse_specifier = λ s. some s;
  version_order = Text_order;
  contains = λ least v. true;
}

abbrev consumes : Text → List Toml → Toml
consumes shortname grants = table (
    field (codes "service") (string (codes "https://x/db/")) (
      field (codes "shortname") (string shortname) (
        field (codes "version") (string (codes ">=1"))
          (field (codes "grants") (array (of_list grants)) end_of_table))))

-- A manifest that consumes a service with these grants.
abbrev toml_with : List Toml → Toml
toml_with grants = table (
    field (codes "app")
      (table (
        field (codes "name") (string (codes "wiki"))
          (field (codes "version") (string (codes "1")) end_of_table)))
      (field (codes "runtime")
        (table (
          field (codes "container")
            (table (
              field (codes "image") (string (codes "img")) (
                field (codes "port") (integer (pos 80))
                  (field (codes "capabilities") caps end_of_table))))
            end_of_table))
        (field (codes "ports") (array (of_list port_entries)) (
          field (codes "services")
            (table (
              field (codes "v2")
                (table (
                  field (codes "consumes") (array (of_list (consumes (codes "db") grants ∷ [])))
                    end_of_table))
                end_of_table))
            end_of_table))))

abbrev manifest_with : Text → List Toml → AppManifest
manifest_with raw grants = record {
  name = string (codes "wiki");
  version = string (codes "1");
  description = string [];
  authors = array end_of_array;
  hidden = boolean false;
  runtime_type = string (codes "serverfull");
  container_image = string (codes "img");
  container_port = integer (pos 80);
  container_command = none;
  port_mappings = mappings;
  capabilities = codes "NET_ADMIN" ∷ codes "KILL" ∷ [];
  devices = [];
  network_host = boolean false;
  shm_mb = 0;
  health_check = none;
  public_paths = array end_of_array;
  links = [];
  memory_mb = integer (pos 128);
  build_memory_mb = none;
  cpu_cores = integer (pos 1);
  gpu = boolean false;
  sqlite_dbs = array end_of_array;
  app_data = boolean true;
  app_temp_data = boolean false;
  app_archive = boolean false;
  access_all_app_data = boolean false;
  provides_services_v2 = [];
  consumes_services_v2 =
      record {
        service = codes "x/db";
        shortname = codes "db";
        version = codes ">=1";
        grants = grants;
      }
      ∷ [];
  raw_toml = raw;
}

abbrev read : Toml
read = string (codes "read")

abbrev write : Toml
write = string (codes "write")

-- Two texts: one with both grants, and another with one of them.
abbrev loads : Text → Option Toml
loads [] = none
loads (c ∷ raw) = some (toml_with (if c == b'2' then read ∷ write ∷ [] else read ∷ []))

abbrev parse_text : Text → Result ManifestError AppManifest
parse_text raw =
    parse_manifest_from_string any_version (λ value. none) (λ value. some value) (λ value. value)
      (integer (pos 1)) loads raw

abbrev new_manifest : AppManifest
new_manifest = manifest_with (codes "2") (read ∷ write ∷ [])

abbrev old_manifest : AppManifest
old_manifest = manifest_with (codes "1") (read ∷ [])

old_test : parse_text (codes "1") ≡ ok old_manifest
unfolding parse_manifest_from_string parse_data read_sections build_manifest checked_container
    parse_app parse_container parse_routing parse_resources parse_cpu_cores parse_data_section
    parse_links section_of truthy is_runtime_type is_container either get get_or or_default lookup
    truth is_zero iterate as_natural as_int natural as_table as_string as_list items text_field
    non_empty_text parse_ports parse_ports_from parse_port container_port_field host_port_field
    seen_after add_host_port validate_capabilities validate_devices each validate_capability
    capability_name remove_prefix upper strip lstrip rstrip is_space starts_with services_v2
    parse_services_v2 structure_list parse_services_v2_consumes parse_consumed_from parse_consumed
    check_consumed parse_grant is_grant matches_shortname shortname_rest at_end_of_line
    normalize_service_url rstrip_slashes
old_test = refl

abbrev no_records : List (PermissionRecord texts grant_text)
no_records = []

manifest_ungranted_permissions_v2-keys_example :
    Distinct (
      keys_of texts grant_text
        (manifest_ungranted_permissions_v2 texts grant_text new_manifest no_records))
    × ((k : PermissionKey)
        → elem k (
            keys_of texts grant_text
              (manifest_ungranted_permissions_v2 texts grant_text new_manifest no_records))
          ≡ (elem k (declared_keys texts grant_text new_manifest)
              && not (elem k (granted_keys texts grant_text no_records))))
manifest_ungranted_permissions_v2-keys_example =
    manifest_ungranted_permissions_v2-keys texts grant_text new_manifest no_records

manifest_newly_declared_permissions_v2-keys_example :
    (asked : List (PermissionGrant texts grant_text)) × (manifest_newly_declared_permissions_v2
        texts grant_text parse_text new_manifest no_records
        (some (codes "1"))
      ≡ ok asked)
    × ((k : PermissionKey)
        → elem k (keys_of texts grant_text asked) ≡ (
            (elem k (declared_keys texts grant_text new_manifest)
              && not (elem k (granted_keys texts grant_text no_records)))
            && not (elem k (declared_keys texts grant_text old_manifest))))
manifest_newly_declared_permissions_v2-keys_example =
    manifest_newly_declared_permissions_v2-keys texts grant_text parse_text new_manifest
      old_manifest no_records b'1' [] old_test

manifest_ungranted_permissions_v2-approved_example :
    manifest_ungranted_permissions_v2 texts grant_text new_manifest (
      approved texts grant_text
        (manifest_ungranted_permissions_v2 texts grant_text new_manifest no_records)
      ++ no_records)
    ≡ []
manifest_ungranted_permissions_v2-approved_example =
    manifest_ungranted_permissions_v2-approved texts grant_text new_manifest no_records
