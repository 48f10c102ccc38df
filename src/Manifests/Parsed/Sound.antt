-- ===== src/Manifests/Parsed/Sound.antt =====
-- What is known of a manifest that parse_manifest_from_string of
-- compute_space/src/compute_space/core/manifest.py accepts.
use cloud_in_a_bottle.Shared.{
  All, Distinct, List, List_eq, Option, String_eq, Text, elem, true, ℕ_eq, ◌≡◌,
}
use cloud_in_a_bottle.Schema.{PortMapping}
use cloud_in_a_bottle.Manifests.Toml.{Toml}
use cloud_in_a_bottle.Manifests.Ports.{is_allowed_host_port}
use cloud_in_a_bottle.Manifests.Ports.Unique.{IsUnique}
use cloud_in_a_bottle.Manifests.Container.{host_path, safe_capabilities, safe_device_paths}
use cloud_in_a_bottle.Manifests.Services.{ServiceProvides}
use cloud_in_a_bottle.Manifests.Services.Consumed.{shortnames, IsConsumed}
use cloud_in_a_bottle.Manifests.Parsed.{AppManifest}
use cloud_in_a_bottle.Manifests.Sections.{Sections}
use cloud_in_a_bottle.Services.{Packaging}

-- Host ports that may be asked for, none twice; capabilities and devices of the lists of safe ones.
pub record IsConfined (port_mappings : List PortMapping) (capabilities devices : List Text)
    : Type 0 where
  pub unique : IsUnique port_mappings
  pub host_ports_allowed : All (λ pm. is_allowed_host_port pm.host_port ≡ true) port_mappings
  pub capabilities_safe : All (λ name. elem name safe_capabilities ≡ true) capabilities
  pub devices_safe : All (λ device. elem (host_path device) safe_device_paths ≡ true) devices

module _ (packaging : Packaging) (structure : Toml → Option ServiceProvides)
    (to_float : Toml → Option Toml) (thousandth : Toml → Toml) (tenth : Toml) where
  pub record IsManifest (raw : Text) (m : AppManifest) : Type 0 where
    pub confined : IsConfined m.port_mappings m.capabilities m.devices
    pub consumed : All (IsConsumed packaging) m.consumes_services_v2
    pub distinct : Distinct (shortnames m.consumes_services_v2)
    pub same_text : m.raw_toml ≡ raw
