-- ===== src/Manifests/Parsed.antt =====
-- AppManifest and parse_manifest_from_string of compute_space/src/compute_space/core/manifest.py. A value that
-- the code copies without a check is the TOML value. `tomllib.loads`, `cattrs.structure`, `float` and the
-- division of floats are parameters, and so is the library packaging.
pub mod Sound
use cloud_in_a_bottle.Shared.{
  List, List_eq, Option, Result, String_eq, Text, [], codes, false, none, ok, opt_eq, required,
  some, true, ℕ, ℕ_eq, ◌>>=◌,
}
use cloud_in_a_bottle.Schema.{PortMapping}
use cloud_in_a_bottle.Manifests.Toml.{
  Toml, ManifestError, array, as_natural, as_string, bad_number, bad_runtime_type, bad_shm_mb,
  boolean, end_of_array, end_of_table, get, get_or, integer, invalid_toml, iterate,
  missing_app_name, missing_app_version, missing_image, missing_port, or_default, pos, string,
  table, truth, wrong_type,
}
use cloud_in_a_bottle.Manifests.Ports.{parse_ports}
use cloud_in_a_bottle.Manifests.Container.{
  AppLink, parse_links, validate_capabilities, validate_devices,
}
use cloud_in_a_bottle.Manifests.Services.{
  ServiceProvides, ServiceConsumes, parse_services_v2, parse_services_v2_consumes,
}
use cloud_in_a_bottle.Manifests.Sections.{
  truthy, section_of, is_runtime_type, is_container, either, checked_container, Sections,
  read_sections,
}
use cloud_in_a_bottle.Services.{Packaging}

pub record AppManifest : Type 0 where
  pub name : Toml
  pub version : Toml
  pub description : Toml
  pub authors : Toml
  pub hidden : Toml
  pub runtime_type : Toml
  pub container_image : Toml
  pub container_port : Toml
  pub container_command : Option Toml
  pub port_mappings : List PortMapping
  pub capabilities : List Text
  pub devices : List Text
  pub network_host : Toml
  pub shm_mb : ℕ
  pub health_check : Option Toml
  pub public_paths : Toml
  pub links : List AppLink
  pub memory_mb : Toml
  pub build_memory_mb : Option Toml
  pub cpu_cores : Toml
  pub gpu : Toml
  pub sqlite_dbs : Toml
  pub app_data : Toml
  pub app_temp_data : Toml
  pub app_archive : Toml
  pub access_all_app_data : Toml
  pub provides_services_v2 : List ServiceProvides
  pub consumes_services_v2 : List ServiceConsumes
  pub raw_toml : Text

-- The parts of a manifest, section by section.
pub record AppPart : Type 0 where
  pub name : Toml
  pub version : Toml
  pub description : Toml
  pub authors : Toml
  pub hidden : Toml

pub record ContainerPart : Type 0 where
  pub image : Toml
  pub port : Toml
  pub command : Option Toml
  pub port_mappings : List PortMapping
  pub capabilities : List Text
  pub devices : List Text
  pub network_host : Toml

pub record RoutingPart : Type 0 where
  pub health_check : Option Toml
  pub public_paths : Toml
  pub links : List AppLink

pub record ResourcesPart : Type 0 where
  pub memory_mb : Toml
  pub build_memory_mb : Option Toml
  pub cpu_cores : Toml
  pub gpu : Toml

pub record DataPart : Type 0 where
  pub sqlite_dbs : Toml
  pub app_data : Toml
  pub app_temp_data : Toml
  pub app_archive : Toml
  pub access_all_app_data : Toml

unfoldable pub effective_build_memory_mb : AppManifest → Toml
effective_build_memory_mb m = or_default m.memory_mb m.build_memory_mb

unfoldable pub parse_app : Toml → Result ManifestError AppPart
parse_app app_section = do
  name ← get_or (codes "name") (boolean false) app_section
  version ← get_or (codes "version") (boolean false) app_section
  description ← get_or (codes "description") (string []) app_section
  authors ← get_or (codes "authors") (array end_of_array) app_section
  hidden ← get_or (codes "hidden") (boolean false) app_section
  ok (record {
    name = name;
    version = version;
    description = description;
    authors = authors;
    hidden = hidden;
  })

unfoldable pub parse_container : Toml → Toml → Result ManifestError ContainerPart
parse_container data' container = do
  image ← get_or (codes "image") (boolean false) container
  port ← get_or (codes "port") (boolean false) container
  command ← get (codes "command") container
  ports ← get_or (codes "ports") (array end_of_array) data'
  entries ← iterate ports
  port_mappings ← parse_ports entries
  caps ← get_or (codes "capabilities") (array end_of_array) container
  capabilities ← validate_capabilities caps
  device_list ← get_or (codes "devices") (array end_of_array) container
  devices ← validate_devices device_list
  network_host ← get_or (codes "network_host") (boolean false) container
  ok (record {
    image = image;
    port = port;
    command = command;
    port_mappings = port_mappings;
    capabilities = capabilities;
    devices = devices;
    network_host = network_host;
  })

unfoldable pub parse_routing : Toml → Toml → Result ManifestError RoutingPart
parse_routing data' routing = do
  health_check ← get (codes "health_check") routing
  public_paths ← get_or (codes "public_paths") (array end_of_array) routing
  link_list ← get_or (codes "links") (array end_of_array) data'
  links ← parse_links link_list
  ok (record { health_check = health_check; public_paths = public_paths; links = links })

unfoldable pub parse_data_section : Toml → Result ManifestError DataPart
parse_data_section data_section = do
  sqlite_dbs ← get_or (codes "sqlite") (array end_of_array) data_section
  app_data ← get_or (codes "app_data") (boolean true) data_section
  app_temp_data ← get_or (codes "app_temp_data") (boolean false) data_section
  app_archive ← get_or (codes "app_archive") (boolean false) data_section
  all_app_data ← get_or (codes "access_all_app_data") (boolean false) data_section
  all_data ← get_or (codes "access_all_data") (boolean false) data_section
  all_archive ← get_or (codes "access_all_archive") (boolean false) data_section
  ok (record {
    sqlite_dbs = sqlite_dbs;
    app_data = app_data;
    app_temp_data = app_temp_data;
    app_archive = app_archive;
    access_all_app_data = either (either all_app_data all_data) all_archive;
  })

module _ (packaging : Packaging) (structure : Toml → Option ServiceProvides)
    (to_float : Toml → Option Toml) (thousandth : Toml → Toml) (tenth : Toml) where
  unfoldable pub parse_cpu_cores : Toml → Result ManifestError Toml
  parse_cpu_cores resources = do
    cores ← get (codes "cpu_cores") resources
    millicores ← get (codes "cpu_millicores") resources
    elim cores [
      | some value ↦ required (to_float value) bad_number
      | none ↦ elim millicores [
        | some value ↦ required (to_float value) bad_number >>= (λ n. ok (thousandth n))
        | none ↦ ok tenth
      ]
    ]

  unfoldable pub parse_resources : Toml → Result ManifestError ResourcesPart
  parse_resources resources = do
    memory_mb ← get_or (codes "memory_mb") (integer (pos 128)) resources
    build_memory_mb ← get (codes "build_memory_mb") resources
    cpu_cores ← parse_cpu_cores resources
    gpu ← get_or (codes "gpu") (boolean false) resources
    ok (record {
      memory_mb = memory_mb;
      build_memory_mb = build_memory_mb;
      cpu_cores = cpu_cores;
      gpu = gpu;
    })

  unfoldable pub build_manifest : Text → Toml → Sections → Result ManifestError AppManifest
  build_manifest raw_text data' sections = do
    app_part ← parse_app sections.app_section
    box ← parse_container data' sections.container
    routing ← parse_routing data' sections.routing
    resources ← parse_resources sections.resources
    stored ← parse_data_section sections.data_section
    provided ← parse_services_v2 packaging structure data'
    consumed ← parse_services_v2_consumes packaging data'
    ok (record {
      name = app_part.name;
      version = app_part.version;
      description = app_part.description;
      authors = app_part.authors;
      hidden = app_part.hidden;
      runtime_type = sections.runtime_type;
      container_image = box.image;
      container_port = box.port;
      container_command = box.command;
      port_mappings = box.port_mappings;
      capabilities = box.capabilities;
      devices = box.devices;
      network_host = box.network_host;
      shm_mb = sections.shm_mb;
      health_check = routing.health_check;
      public_paths = routing.public_paths;
      links = routing.links;
      memory_mb = resources.memory_mb;
      build_memory_mb = resources.build_memory_mb;
      cpu_cores = resources.cpu_cores;
      gpu = resources.gpu;
      sqlite_dbs = stored.sqlite_dbs;
      app_data = stored.app_data;
      app_temp_data = stored.app_temp_data;
      app_archive = stored.app_archive;
      access_all_app_data = stored.access_all_app_data;
      provides_services_v2 = provided;
      consumes_services_v2 = consumed;
      raw_toml = raw_text;
    })

  unfoldable pub parse_data : Text → Toml → Result ManifestError AppManifest
  parse_data raw_text data' = read_sections data' >>= build_manifest raw_text data'

  unfoldable pub parse_manifest_from_string :
      (Text → Option Toml) → Text → Result ManifestError AppManifest
  parse_manifest_from_string loads raw_text =
      required (loads raw_text) invalid_toml >>= parse_data raw_text
