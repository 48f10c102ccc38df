-- ===== src/Ports/Resolved.antt =====
-- What `resolve_port_mappings` returns.
use mathlib.Core.List.{append-nil, append_assoc, Perm}
use mathlib.Core.List.Perm
use cloud_in_a_bottle.Shared.{
  All, All-of_mem, Bool, Bool-cases, Distinct, List, Option, Result, String, [], ap, arith,
  bind-eq-ok, elem, elem-append-eq-false, elem-map_iff, false, filter, inl, inr, map, ok, refl, sym,
  true, ℕ, ℕ_eq, ◌++◌, ◌==◌, ◌∙◌, ◌∷◌, ◌≡◌, ◌≢◌, ◌≤◌,
}
use cloud_in_a_bottle.Ports.Claimed.{
  host_ports, unassigned, is_fixed, is_auto, Claims, Claims-snoc, or_exhausted-eq-ok,
  other_mapping-eq-false, unclaimed_later,
}
use cloud_in_a_bottle.Schema.{PortMapping, App}
use cloud_in_a_bottle.Ports.{
  Tables, PortError, port_is_bindable, check_port_available, fixed_pass, auto_pass,
  find_free_host_port, port_range, resolve_port_mappings, port_range,
}
use cloud_in_a_bottle.Ports.Available.{other_mapping}
use cloud_in_a_bottle.Ports.Free.{first_free-IsOpen, range_from_bounds}
use mathlib.Core.Logic.{∥∥₁_elim}
use mathlib.Core.Path.{subst}
use mathlib.Core.HLevel.{×_prop}
use native.Mathlib.Bridge.{le_prop}

module _ (tcp_binds udp_binds : ℕ → Bool) (range_start range_end : ℕ) (db : Tables)
    (exclude : Option String) where
  -- The check that a port asked for by number has to pass.
  abbrev pub IsAvailable : PortMapping → Type 0
  IsAvailable pm = (check_port_available tcp_binds udp_binds pm.host_port db exclude).0 ≡ true

  -- What the search gives: a port of the range that is no app's main port, that no mapping of
  -- another app has, and that can be bound.
  pub record IsAssigned (port : ℕ) : Type 0 where
    pub low : range_start ≤ port
    pub high : port ≤ range_end
    pub main : All (λ (a : App). a.local_port ≢ port) db.apps
    pub mapped : other_mapping port exclude db ≡ false
    pub fits : port_is_bindable tcp_binds udp_binds port ≡ true

  module _ (shuffle : List ℕ → List ℕ) where
    abbrev fixed :
        List PortMapping → List ℕ → List PortMapping → Result PortError (List ℕ × List PortMapping)
    fixed = fixed_pass tcp_binds udp_binds shuffle range_start range_end db exclude

    record FixedDone (pms : List PortMapping) (resolved : List PortMapping)
        (out : List ℕ × List PortMapping) : Type 0 where
      claims : Claims out.0 out.1
      added : out.1 ≡ resolved ++ filter is_fixed pms
      passed : All IsAvailable (filter is_fixed pms)

    fixed_pass-FixedDone :
        (pms : List PortMapping) (claimed : List ℕ) (resolved : List PortMapping)
        (out : List ℕ × List PortMapping)
        → Claims claimed resolved
        → fixed pms claimed resolved ≡ ok out
        → FixedDone pms resolved out
    unfolding fixed_pass
    fixed_pass-FixedDone [] claimed resolved out c h =
        subst (FixedDone [] resolved) (cc)
          (record { claims = c; added = sym (append-nil resolved); passed = tt })
    fixed_pass-FixedDone (pm ∷ pms) claimed resolved out c h =
        elim (Bool-cases (pm.host_port == 0)) [
          | inl auto ↦
              let d = fixed_pass-FixedDone pms claimed resolved out c (ground arith) in
              record {
                claims = d.claims;
                added = ground (arith, d.added);
                passed = rw auto d.passed;
              }
          | inr named ↦
              elim (Bool-cases
                (check_port_available tcp_binds udp_binds pm.host_port db exclude).0) [
                  | inl free ↦ elim (Bool-cases (elem pm.host_port claimed)) [
                    | inl twice ↦ absurd (ground arith)
                    | inr new ↦
                        let d =
                          fixed_pass-FixedDone pms (pm.host_port ∷ claimed) (resolved ++ pm ∷ [])
                            out (Claims-snoc claimed resolved pm c new) (ground arith) in
                        record {
                          claims = d.claims;
                          added = rw named (d.added ∙ append_assoc resolved (pm ∷ []) _);
                          passed = rw named (free, d.passed);
                        }
                  ]
                  | inr taken ↦ absurd (ground arith)
                ]
        ]

    find_free_host_port-IsAssigned :
        ((l : List ℕ) → Perm (shuffle l) l)
        → (claimed : List ℕ) (port : ℕ)
        → find_free_host_port tcp_binds udp_binds shuffle range_start range_end db claimed exclude
          ≡ ok port
        → IsAssigned port × (elem port claimed ≡ false)
    unfolding find_free_host_port port_range
    find_free_host_port-IsAssigned shuffled claimed port h =
        let (m, new, fits) =
          first_free-IsOpen tcp_binds udp_binds _ _ port
            (or_exhausted-eq-ok range_start range_end _ port h) in
        let (unmapped, unclaimed) = elem-append-eq-false port _ claimed new in
        let (main, mapped) = elem-append-eq-false port _ _ unmapped in
        let bounds =
          ∥∥₁_elim ((Perm.mem_iff (shuffled _)).0 ∣ m ∣₁) (×_prop le_prop le_prop)
            (range_from_bounds range_start _ port) in
        (
          record {
            low = bounds.0;
            high = omega (arith, bounds.1);
            main = (elem-map_iff (λ (a : App). a.local_port) port db.apps).0 main;
            mapped = other_mapping-eq-false exclude port db.mappings mapped;
            fits = fits;
          },
          unclaimed,
        )

    abbrev auto : List PortMapping → List ℕ → List PortMapping → Result PortError (List PortMapping)
    auto = auto_pass tcp_binds udp_binds shuffle range_start range_end db exclude

    record AutoDone (pms : List PortMapping) (resolved : List PortMapping) (out : List PortMapping)
        : Type 0 where
      autos : List PortMapping
      distinct : Distinct (host_ports out)
      added : out ≡ resolved ++ autos
      asked : map unassigned autos ≡ filter is_auto pms
      passed : All (λ pm. IsAssigned pm.host_port) autos

    auto_pass-AutoDone :
        ((l : List ℕ) → Perm (shuffle l) l)
        → (pms : List PortMapping) (claimed : List ℕ) (resolved out : List PortMapping)
        → Claims claimed resolved
        → auto pms claimed resolved ≡ ok out
        → AutoDone pms resolved out
    unfolding auto_pass
    auto_pass-AutoDone shuffled [] claimed resolved out c h =
        subst (AutoDone [] resolved) (cc) (record {
          autos = [];
          distinct = c.distinct;
          added = sym (append-nil resolved);
          asked = refl;
          passed = tt;
        })
    auto_pass-AutoDone shuffled (pm ∷ pms) claimed resolved out c h =
        elim (Bool-cases (pm.host_port == 0)) [
          | inr named ↦
              let d = auto_pass-AutoDone shuffled pms claimed resolved out c (ground arith) in
              record {
                autos = d.autos;
                distinct = d.distinct;
                added = d.added;
                asked = rw named d.asked;
                passed = d.passed;
              }
          | inl asked ↦
              let (port, found, more) = bind-eq-ok _ _ (rw asked at h) in
              let (assigned, new) = find_free_host_port-IsAssigned shuffled claimed port found in
              let pm' = record pm { host_port = port } in
              let d =
                auto_pass-AutoDone shuffled pms (port ∷ claimed) (resolved ++ pm' ∷ []) out
                  (Claims-snoc claimed resolved pm' c new) more in
              record {
                autos = pm' ∷ d.autos;
                distinct = d.distinct;
                added = d.added ∙ append_assoc resolved (pm' ∷ []) _;
                asked = rw asked (ground (arith, d.asked));
                passed = (assigned, d.passed);
              }
        ]

    -- What a successful call promises of the list that it returns: the mappings with a port of their
    -- own in the order given, then the others in the order given with a port assigned.
    pub record IsResolution (mappings resolved : List PortMapping) : Type 0 where
      pub autos : List PortMapping
      pub split : resolved ≡ filter is_fixed mappings ++ autos
      pub asked : map unassigned autos ≡ filter is_auto mappings
      pub distinct : Distinct (host_ports resolved)
      pub available : All IsAvailable (filter is_fixed mappings)
      pub assigned : All (λ pm. IsAssigned pm.host_port) autos

    abbrev pub resolve : List PortMapping → Result PortError (List PortMapping)
    resolve = resolve_port_mappings tcp_binds udp_binds shuffle range_start range_end db exclude

    -- If `random.shuffle` permutes, a list that `resolve_port_mappings` returns holds the mappings
    -- that name a port, each of which passed `check_port_available`, and then every other mapping
    -- with its label and container port and a host port of the range that is no main port, that no
    -- mapping of another app has and that can be bound; no two host ports of the list are equal.
    pub resolve_port_mappings-IsResolution :
        ((l : List ℕ) → Perm (shuffle l) l)
        → (mappings resolved : List PortMapping) → resolve mappings ≡ ok resolved
        → IsResolution mappings resolved
    unfolding resolve_port_mappings
    resolve_port_mappings-IsResolution shuffled mappings resolved h =
        let (out, first, second) =
          bind-eq-ok (fixed mappings [] []) (λ o. auto mappings o.0 o.1) h in
        let start : Claims [] [] = record { same = λ q. refl; distinct = tt } in
        let f = fixed_pass-FixedDone mappings [] [] out start first in
        let a = auto_pass-AutoDone shuffled mappings out.0 out.1 resolved f.claims second in
        record {
          autos = a.autos;
          split = a.added ∙ ap (λ l. l ++ a.autos) f.added;
          asked = a.asked;
          distinct = a.distinct;
          available = f.passed;
          assigned = a.passed;
        }

    fixed_pass-total :
        (pms : List PortMapping) (claimed : List ℕ) (resolved : List PortMapping)
        → All (λ pm. is_fixed pm ≡ true) pms
        → All IsAvailable pms
        → Distinct (host_ports pms)
        → All (λ pm. elem pm.host_port claimed ≡ false) pms
        → (out : List ℕ) × (fixed pms claimed resolved ≡ ok (out, resolved ++ pms))
    unfolding fixed_pass
    fixed_pass-total [] claimed resolved named free d new = (claimed, rw append-nil)
    fixed_pass-total (pm ∷ pms) claimed resolved named free d new =
        let later =
          fixed_pass-total pms (pm.host_port ∷ claimed) (resolved ++ pm ∷ []) named.1 free.1 d.1
            (unclaimed_later pm claimed pms d.0 new.1) in
        (later.0, ground (arith, later.1, append_assoc resolved (pm ∷ []) pms))

    auto_pass_of_fixed :
        (pms : List PortMapping) (claimed : List ℕ) (resolved : List PortMapping)
        → All (λ pm. is_fixed pm ≡ true) pms
        → auto pms claimed resolved ≡ ok resolved
    unfolding auto_pass
    auto_pass_of_fixed [] claimed resolved named = refl
    auto_pass_of_fixed (pm ∷ pms) claimed resolved named =
        ground (arith, auto_pass_of_fixed pms claimed resolved named.1)

    -- Mappings that all name their port, with distinct ports that pass `check_port_available`, are
    -- returned as they are, whatever `random.shuffle` does.
    pub resolve_port_mappings_of_fixed :
        (mappings : List PortMapping)
        → All (λ pm. is_fixed pm ≡ true) mappings
        → All IsAvailable mappings
        → Distinct (host_ports mappings)
        → resolve mappings ≡ ok mappings
    unfolding resolve_port_mappings
    resolve_port_mappings_of_fixed mappings named free d =
        let (out, e) =
          fixed_pass-total mappings [] [] named free d (All-of_mem _ mappings (λ pm m. refl)) in
        rw e (auto_pass_of_fixed mappings out mappings named)
