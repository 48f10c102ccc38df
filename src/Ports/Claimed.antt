-- ===== src/Ports/Claimed.antt =====
-- The host ports that the mappings of one resolution have claimed.
use mathlib.Core.List.{map-append}
use cloud_in_a_bottle.Shared.{
  ==_iff, All, Bool, Distinct, Distinct-snoc, List, Option, String, [], any, arith, elem,
  elem-append, false, filter, map, none, not, ok, refl, some, sym, ℕ, ℕ_eq, ◌&&◌, ◌++◌, ◌==◌, ◌∙◌,
  ◌∷◌, ◌≡◌,
}
use cloud_in_a_bottle.Schema.{PortMapping, PortRow}
use cloud_in_a_bottle.Ports.{or_exhausted, foreign}

abbrev pub host_ports : List PortMapping → List ℕ
host_ports = map (λ pm. pm.host_port)

-- The mapping as it was asked for, before a port was assigned.
abbrev pub unassigned : PortMapping → PortMapping
unassigned pm = record pm { host_port = 0 }

abbrev pub is_fixed : PortMapping → Bool
is_fixed pm = not (pm.host_port == 0)

abbrev pub is_auto : PortMapping → Bool
is_auto pm = pm.host_port == 0

-- `claimed` holds the ports of `resolved`, and those are distinct.
pub record Claims (claimed : List ℕ) (resolved : List PortMapping) : Type 0 where
  pub same : (q : ℕ) → elem q claimed ≡ elem q (host_ports resolved)
  pub distinct : Distinct (host_ports resolved)

pub Claims-snoc :
    (claimed : List ℕ) (resolved : List PortMapping) (pm : PortMapping)
    → Claims claimed resolved
    → elem pm.host_port claimed ≡ false
    → Claims (pm.host_port ∷ claimed) (resolved ++ pm ∷ [])
Claims-snoc claimed resolved pm c new =
    let e = map-append (λ (m : PortMapping). m.host_port) resolved (pm ∷ []) in
    record {
      same = λ q.
          rw e (ground (arith, c.same q, elem-append q (host_ports resolved) (pm.host_port ∷ [])));
      distinct = rw e (
          Distinct-snoc (host_ports resolved) pm.host_port c.distinct
            (sym (c.same pm.host_port) ∙ new));
    }

pub or_exhausted-eq-ok :
    (range_start range_end : ℕ) (o : Option ℕ) (port : ℕ)
    → or_exhausted range_start range_end o ≡ ok port
    → o ≡ some port
or_exhausted-eq-ok range_start range_end none port h = cc
or_exhausted-eq-ok range_start range_end (some q) port h = cc

pub other_mapping-eq-false :
    (exclude : Option String) (port : ℕ) (ms : List PortRow)
    → elem port (map (λ m. m.host_port) (filter (foreign exclude) ms)) ≡ false
    → any (λ (m : PortRow). (m.host_port == port) && foreign exclude m) ms ≡ false
other_mapping-eq-false exclude port [] h = refl
other_mapping-eq-false exclude port (m ∷ ms) h = ground (
  arith,
  other_mapping-eq-false exclude port ms,
  ==_iff m.host_port port,
  ==_iff port m.host_port,
)

pub unclaimed_later :
    (pm : PortMapping) (claimed : List ℕ) (pms : List PortMapping)
    → elem pm.host_port (host_ports pms) ≡ false
    → All (λ (m : PortMapping). elem m.host_port claimed ≡ false) pms
    → All (λ (m : PortMapping). elem m.host_port (pm.host_port ∷ claimed) ≡ false) pms
unclaimed_later pm claimed [] fresh new = tt
unclaimed_later pm claimed (m ∷ pms) fresh new = (
  ground (arith, ==_iff m.host_port pm.host_port, ==_iff pm.host_port m.host_port),
  unclaimed_later pm claimed pms (ground arith) new.1,
)
