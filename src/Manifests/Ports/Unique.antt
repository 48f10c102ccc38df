-- ===== src/Manifests/Ports/Unique.antt =====
-- Which [[ports]] _parse_ports of compute_space/src/compute_space/core/manifest.py accepts, without the sets of
-- its loop.
use cloud_in_a_bottle.Shared.{
  Bool-cases, Distinct, FreshFrom, FreshFrom-nil_iff, List, List_eq, String_eq, Text, [], arith,
  filter, inl, inr, map, not, ok, ℕ, ℕ_eq, ◌==◌, ◌↔◌, ◌∷◌, ◌≡◌,
}
use cloud_in_a_bottle.Schema.{PortMapping}
use cloud_in_a_bottle.Manifests.Toml.{Toml}
use cloud_in_a_bottle.Manifests.Ports.{Seen, seen_after, add_host_port, parse_ports}
use cloud_in_a_bottle.Manifests.Ports.Accepted.{AreNew, DeclaresAll, parse_ports_from_iff}

abbrev pub labels_of : List PortMapping → List Text
labels_of = map (λ pm. pm.label)

abbrev pub container_ports_of : List PortMapping → List ℕ
container_ports_of = map (λ pm. pm.container_port)

-- The host ports that are asked for: 0 leaves the choice to the router.
abbrev pub asked_host_ports : List PortMapping → List ℕ
asked_host_ports pms = filter (λ p. not (p == 0)) (map (λ pm. pm.host_port) pms)

-- No label, container port or host port is declared twice.
pub record IsUnique (pms : List PortMapping) : Type 0 where
  pub labels : Distinct (labels_of pms)
  pub container_ports : Distinct (container_ports_of pms)
  pub host_ports : Distinct (asked_host_ports pms)

AreNew-FreshFrom :
    (pms : List PortMapping) (seen : Seen)
    → AreNew seen pms ↔ (
        FreshFrom seen.labels (labels_of pms)
        × FreshFrom seen.container_ports (container_ports_of pms)
        × FreshFrom seen.host_ports (asked_host_ports pms))
unfolding seen_after add_host_port
AreNew-FreshFrom [] seen = (λ _. (tt, tt, tt), λ _. tt)
AreNew-FreshFrom (pm ∷ pms) seen = elim (Bool-cases (pm.host_port == 0)) [
  | inl chosen ↦ rw chosen (ground (arith, AreNew-FreshFrom pms (after seen.host_ports)))
  | inr asked ↦
      rw asked (ground (arith, AreNew-FreshFrom pms (after (pm.host_port ∷ seen.host_ports))))
]
  where
    after : List ℕ → Seen
    after host_ports = record {
      labels = pm.label ∷ seen.labels;
      container_ports = pm.container_port ∷ seen.container_ports;
      host_ports = host_ports;
    }

-- The entries are accepted, as these mappings, exactly when each entry is a table that declares its
-- mapping (a label, a container port, and a host port that is 0 or at least 25) and no label, container
-- port or chosen host port occurs twice.
pub parse_ports_iff :
    (entries : List Toml) (pms : List PortMapping)
    → (parse_ports entries ≡ ok pms) ↔ (DeclaresAll entries pms × IsUnique pms)
unfolding parse_ports
parse_ports_iff entries pms =
    let seen : Seen = record { labels = []; container_ports = []; host_ports = [] } in
    let (to, from) = parse_ports_from_iff entries seen pms in
    let (fresh, new) = AreNew-FreshFrom pms seen in
    (
      λ h.
          (let (declared, news) = to h in
            let (labels, cports, hports) = fresh news in
            (
              declared,
              record {
                labels = (FreshFrom-nil_iff (labels_of pms)).0 labels;
                container_ports = (FreshFrom-nil_iff (container_ports_of pms)).0 cports;
                host_ports = (FreshFrom-nil_iff (asked_host_ports pms)).0 hports;
              },
            )),
      λ (declared, unique). from (
        declared,
        new (
          (FreshFrom-nil_iff (labels_of pms)).1 unique.labels,
          (FreshFrom-nil_iff (container_ports_of pms)).1 unique.container_ports,
          (FreshFrom-nil_iff (asked_host_ports pms)).1 unique.host_ports,
        ),
      ),
    )
