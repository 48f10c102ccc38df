-- ===== src/Manifests/Ports.antt =====
-- _parse_ports of compute_space/src/compute_space/core/manifest.py: the [[ports]] of a manifest.
pub mod Accepted
pub mod Unique
use cloud_in_a_bottle.Shared.{
  Bool, List, List_eq, Option, Result, String_eq, Text, [], codes, elem, if◌then◌else◌, leb, not,
  ok, require, required, when_set, ℕ, ℕ_eq, ◌==◌, ◌>>=◌, ◌>>◌, ◌||◌, ◌∷◌,
}
use cloud_in_a_bottle.Schema.{PortMapping}
use cloud_in_a_bottle.Manifests.Toml.{
  Toml, ManifestError, Fields, as_natural, as_table, bad_container_port, bad_host_port,
  duplicate_container_port, duplicate_host_port, duplicate_label, integer, lookup, missing_label,
  not_a_table, or_default, pos, privileged_host_port, text_field,
}

abbrev pub unprivileged_port_floor : ℕ
unprivileged_port_floor = 25

-- The sets of the loop.
pub record Seen : Type 0 where
  pub labels : List Text
  pub container_ports : List ℕ
  pub host_ports : List ℕ

-- `entry.get("host_port", 0)`
unfoldable pub host_port_field : Fields → Option ℕ
host_port_field fields =
    as_natural (or_default (integer (pos 0)) (lookup (codes "host_port") fields))

unfoldable pub container_port_field : Fields → Option ℕ
container_port_field fields = when_set (lookup (codes "container_port") fields) as_natural

unfoldable pub add_host_port : ℕ → List ℕ → List ℕ
add_host_port port ports = if port == 0 then ports else port ∷ ports

-- `port != 0 and port < UNPRIVILEGED_PORT_FLOOR`
abbrev pub is_allowed_host_port : ℕ → Bool
is_allowed_host_port port = (port == 0) || leb unprivileged_port_floor port

unfoldable pub parse_port : Seen → Fields → Result ManifestError PortMapping
parse_port seen fields = do
  label ← required (text_field (codes "label") fields) missing_label
  require (not (elem label seen.labels)) duplicate_label
  cport ← required (container_port_field fields) bad_container_port
  require (not (elem cport seen.container_ports)) duplicate_container_port
  hport ← required (host_port_field fields) bad_host_port
  require (is_allowed_host_port hport) privileged_host_port
  require ((hport == 0) || not (elem hport seen.host_ports)) duplicate_host_port
  ok (record { label = label; container_port = cport; host_port = hport })

unfoldable pub seen_after : Seen → PortMapping → Seen
seen_after seen pm = record {
  labels = pm.label ∷ seen.labels;
  container_ports = pm.container_port ∷ seen.container_ports;
  host_ports = add_host_port pm.host_port seen.host_ports;
}

unfoldable pub parse_ports_from : Seen → List Toml → Result ManifestError (List PortMapping)
parse_ports_from seen [] = ok []
parse_ports_from seen (entry ∷ entries) = do
  fields ← required (as_table entry) not_a_table
  pm ← parse_port seen fields
  later ← parse_ports_from (seen_after seen pm) entries
  ok (pm ∷ later)

unfoldable pub parse_ports : List Toml → Result ManifestError (List PortMapping)
parse_ports entries =
    parse_ports_from (record { labels = []; container_ports = []; host_ports = [] }) entries
