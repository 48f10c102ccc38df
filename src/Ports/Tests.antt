-- ===== src/Ports/Tests.antt =====
-- Tests of the port allocation, and its theorems at concrete tables.
use mathlib.Core.List.Perm
use cloud_in_a_bottle.Shared.{
  Bool, List, String_eq, [], arith, codes, none, not, ok, raise, refl, some, true, ℕ, ℕ_eq, ◌&&◌,
  ◌<◌, ◌==◌, ◌||◌, ◌∷◌, ◌≡◌, ◌≤◌,
}
use cloud_in_a_bottle.Schema.{App, AppStatus, PortMapping}
use cloud_in_a_bottle.Ports.{
  Tables, allocate_port, check_port_available, resolve_port_mappings, find_free_host_port,
  fixed_pass, auto_pass, port_range, port_is_bindable, first_free, in_use, main_port,
}
use cloud_in_a_bottle.Ports.Available.{
  IsConsistent, check_port_available_lem, other_main, other_mapping, own_port,
}
use cloud_in_a_bottle.Ports.Free.{CanAllocate, allocate_port_least}
use cloud_in_a_bottle.Ports.Resolved.{IsResolution, resolve_port_mappings-IsResolution}

-- Port 9003 is taken by another program on the host.
abbrev tcp : ℕ → Bool
tcp p = not (p == 9003)

abbrev udp : ℕ → Bool
udp p = true

abbrev wiki : App
wiki = record {
  app_id = "w1";
  name = codes "wiki";
  local_port = 9000;
  container_id = none;
  status = AppStatus.running;
  error_message = none;
  public_paths = [];
  created_at = 1;
}

abbrev tables : Tables
tables = record {
  apps = wiki ∷ [];
  mappings =
      record { app_id = "w1"; label = codes "ssh"; container_port = 22; host_port = 9001 } ∷ [];
}

abbrev same_order : List ℕ → List ℕ
same_order l = l

abbrev asked : List PortMapping
asked =
    record { label = codes "dns"; container_port = 53; host_port = 0 }
    ∷ record { label = codes "game"; container_port = 70; host_port = 9004 }
    ∷ []

abbrev given : List PortMapping
given =
    record { label = codes "game"; container_port = 70; host_port = 9004 }
    ∷ record { label = codes "dns"; container_port = 53; host_port = 9002 }
    ∷ []

tables-IsConsistent : IsConsistent tables
tables-IsConsistent = record { unique = (tt, tt); owned = (refl, tt) }

allocate_test : allocate_port tcp udp 9000 9999 tables ≡ ok 9002
unfolding allocate_port first_free port_range port_is_bindable
allocate_test = refl

resolve_test : resolve_port_mappings tcp udp same_order 9000 9999 tables none asked ≡ ok given
unfolding resolve_port_mappings fixed_pass auto_pass check_port_available find_free_host_port
    first_free port_range port_is_bindable
resolve_test = refl

resolve_taken :
    resolve_port_mappings tcp udp same_order 9000 9999 tables none
      (record { label = codes "a"; container_port = 1; host_port = 9000 } ∷ [])
    ≡ raise (in_use 9000 (codes "a") (some (main_port (codes "wiki"))))
unfolding resolve_port_mappings fixed_pass auto_pass check_port_available
resolve_taken = refl

can_9002 : CanAllocate tcp udp 9002 tables
unfolding port_is_bindable
can_9002 = (record { main = (omega arith, tt); mapped = (omega arith, tt) }, refl)

allocate_port_least_example :
    (port : ℕ) × (allocate_port tcp udp 9000 9999 tables ≡ ok port)
    × (9000 ≤ port)
    × (port ≤ 9002)
    × CanAllocate tcp udp port tables
    × ((r : ℕ) → 9000 ≤ r → r < port → ¬ CanAllocate tcp udp r tables)
allocate_port_least_example =
    allocate_port_least tcp udp 9000 9999 tables 9002 (omega arith) (omega arith) can_9002

no_port : (q : ℕ) → 9000 ≤ q → q ≤ 9001 → ¬ CanAllocate tcp udp q tables
no_port q low high (unused, _) = omega (arith, unused.main.0, unused.mapped.0)

check_port_available_lem_example : (check_port_available tcp udp 9001 tables (some "w1")).0 ≡ (
    not (other_main 9001 (some "w1") tables)
    && not (other_mapping 9001 (some "w1") tables)
    && (own_port 9001 (some "w1") tables || port_is_bindable tcp udp 9001))
check_port_available_lem_example =
    check_port_available_lem tcp udp 9001 tables (some "w1") tables-IsConsistent

resolve_port_mappings-IsResolution_example :
    IsResolution tcp udp 9000 9999 tables none same_order asked given
resolve_port_mappings-IsResolution_example =
    resolve_port_mappings-IsResolution tcp udp 9000 9999 tables none same_order (λ l. Perm.refl l)
      asked given resolve_test
