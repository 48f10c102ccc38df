-- ===== src/Manifests/Ports/Accepted.antt =====
-- Which [[ports]] _parse_ports of compute_space/src/compute_space/core/manifest.py accepts.
use cloud_in_a_bottle.Shared.{
  List, List_eq, String_eq, [], ap, arith, bind-eq-ok, codes, elem, false, false_of_not, not, ok,
  ok-inj, refl, require_iff, required-bind_iff, some, sym, true, ℕ_eq, ◌==◌, ◌||◌, ◌↔◌, ◌∙◌, ◌∷◌,
  ◌≡◌,
}
use cloud_in_a_bottle.Schema.{PortMapping}
use cloud_in_a_bottle.Manifests.Toml.{
  Toml, Fields, as_table, text_field, bad_container_port, bad_host_port, duplicate_container_port,
  duplicate_host_port, duplicate_label, missing_label, not_a_table, privileged_host_port,
}
use cloud_in_a_bottle.Manifests.Ports.{
  Seen, container_port_field, host_port_field, is_allowed_host_port, parse_port, seen_after,
  parse_ports_from,
}

-- An entry that declares a mapping, whatever the other entries are.
abbrev pub Declares : Toml → PortMapping → Type 0
Declares entry pm =
    (fields : Fields) × (as_table entry ≡ some fields)
    × (text_field (codes "label") fields ≡ some pm.label)
    × (container_port_field fields ≡ some pm.container_port)
    × (host_port_field fields ≡ some pm.host_port)
    × (is_allowed_host_port pm.host_port ≡ true)

abbrev pub DeclaresAll : List Toml → List PortMapping → Type 0
DeclaresAll [] [] = Unit
DeclaresAll [] (pm ∷ pms) = ⊥
DeclaresAll (entry ∷ entries) [] = ⊥
DeclaresAll (entry ∷ entries) (pm ∷ pms) = Declares entry pm × DeclaresAll entries pms

-- A mapping none of whose values has been seen.
abbrev pub IsNew : Seen → PortMapping → Type 0
IsNew seen pm =
    (elem pm.label seen.labels ≡ false)
    × (elem pm.container_port seen.container_ports ≡ false)
    × (((pm.host_port == 0) || not (elem pm.host_port seen.host_ports)) ≡ true)

abbrev pub AreNew : Seen → List PortMapping → Type 0
AreNew seen [] = Unit
AreNew seen (pm ∷ pms) = IsNew seen pm × AreNew (seen_after seen pm) pms

parse_port_iff :
    (seen : Seen) (fields : Fields) (pm : PortMapping)
    → (parse_port seen fields ≡ ok pm) ↔ (
        (text_field (codes "label") fields ≡ some pm.label)
        × (container_port_field fields ≡ some pm.container_port)
        × (host_port_field fields ≡ some pm.host_port)
        × (is_allowed_host_port pm.host_port ≡ true)
        × IsNew seen pm)
unfolding parse_port
parse_port_iff seen fields pm = (
  λ h.
      (let (label, l, h1) =
          (required-bind_iff (text_field (codes "label") fields) missing_label _).0 h in
        let (new_label, h2) = (require_iff _ duplicate_label _).0 h1 in
        let (cport, c, h3) =
          (required-bind_iff (container_port_field fields) bad_container_port _).0 h2 in
        let (new_cport, h4) = (require_iff _ duplicate_container_port _).0 h3 in
        let (hport, p, h5) = (required-bind_iff (host_port_field fields) bad_host_port _).0 h4 in
        let (floor, h6) = (require_iff _ privileged_host_port _).0 h5 in
        let (new_hport, h7) = (require_iff _ duplicate_host_port _).0 h6 in
        let e : record { label = label; container_port = cport; host_port = hport } ≡ pm =
          ok-inj h7 in
        rw (← e) (l, c, p, floor, (false_of_not _ new_label, false_of_not _ new_cport, new_hport))),
  λ (label, cport, hport, floor, (new_label, new_cport, new_hport)).
      rw (label, new_label, cport, new_cport, hport, floor, new_hport) refl,
)

pub parse_ports_from_iff :
    (entries : List Toml) (seen : Seen) (pms : List PortMapping)
    → (parse_ports_from seen entries ≡ ok pms) ↔ (DeclaresAll entries pms × AreNew seen pms)
unfolding parse_ports_from
parse_ports_from_iff [] seen [] = (λ _. (tt, tt), λ _. refl)
parse_ports_from_iff [] seen (pm ∷ pms) = (λ h. absurd (ground arith), λ h. absurd h.0)
parse_ports_from_iff (entry ∷ entries) seen [] = (
  λ h.
      (let (fields, _, h1) = (required-bind_iff (as_table entry) not_a_table _).0 h in
        let (pm, _, h2) = bind-eq-ok (parse_port seen fields) _ h1 in
        let (later, _, h3) = bind-eq-ok (parse_ports_from (seen_after seen pm) entries) _ h2 in
        absurd (ground arith)),
  λ h. absurd h.0,
)
parse_ports_from_iff (entry ∷ entries) seen (pm ∷ pms) = (
  λ h.
      (let (fields, is_table, h1) = (required-bind_iff (as_table entry) not_a_table _).0 h in
        let (read, parsed, h2) = bind-eq-ok (parse_port seen fields) _ h1 in
        let (later, rest, h3) = bind-eq-ok (parse_ports_from (seen_after seen read) entries) _ h2 in
        let same : read ≡ pm = cc in
        let same_later : later ≡ pms = cc in
        let (label, cport, hport, floor, new) =
          (parse_port_iff seen fields pm).0 (parsed ∙ ap ok same) in
        let (declared, news) = (parse_ports_from_iff entries (seen_after seen pm) pms).0 (
          ap (λ m. parse_ports_from (seen_after seen m) entries) (sym same)
          ∙ rest
          ∙ ap ok same_later) in
        (((fields, is_table, label, cport, hport, floor), declared), (new, news))),
  λ (((fields, is_table, label, cport, hport, floor), declared), (new, news)).
      rw
        (
          is_table,
          (parse_port_iff seen fields pm).1 (label, cport, hport, floor, new),
          (parse_ports_from_iff entries (seen_after seen pm) pms).1 (declared, news),
        )
        refl,
)
