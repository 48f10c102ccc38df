-- ===== src/Migrations/System/Tests.antt =====
-- Tests of the system migrations, and their theorem, on a machine that is the list of what was done.

use cloud_in_a_bottle.Shared.{
  List, List_eq, String_eq, Text, [], arith, codes, length, none, raise, refl, some, true, ℕ, ℕ_eq,
  ◌+◌, ◌∷◌, ◌≡◌, ◌≤◌,
}
use cloud_in_a_bottle.Migrations.Versions.{is_contiguous, highest_version}
use cloud_in_a_bottle.Migrations.System.{
  first_success, current_host_version, SystemMigration, Host, failed, system_versions,
  success_entry, failure_entry, append_entry, run_registry, apply_system_migrations,
}
use cloud_in_a_bottle.Migrations.System.Logged.{
  IsLogged, due_after, apply_system_migrations-IsLogged,
}

abbrev Machine : Type 0
Machine = List ℕ

abbrev clock : ℕ → Text
clock v = codes "2026-01-01"

abbrev does : ℕ → SystemMigration Machine
does v = record { version = v; up = λ m. (v ∷ m, none) }

abbrev breaks : ℕ → SystemMigration Machine
breaks v = record { version = v; up = λ m. (99 ∷ m, some (codes "no space")) }

abbrev registry : List (SystemMigration Machine)
registry = does 2 ∷ breaks 3 ∷ does 4 ∷ []

abbrev host : Host Machine
host = record { machine = []; log = success_entry Machine clock 1 ∷ [] }

abbrev after : Host Machine
after = record {
  machine = 99 ∷ 2 ∷ [];
  log =
      success_entry Machine clock 1
      ∷ success_entry Machine clock 2
      ∷ failure_entry Machine clock 3 (codes "no space")
      ∷ [];
}

stop_test :
    apply_system_migrations Machine clock true registry host
    ≡ (raise (failed (codes "no space")), after)
unfolding apply_system_migrations run_registry append_entry current_host_version first_success
    is_contiguous highest_version
stop_test = refl

contiguous_test : is_contiguous (system_versions Machine registry) ≡ true
unfolding is_contiguous
contiguous_test = refl

versioned_test : 1 ≤ current_host_version host.log
unfolding current_host_version first_success
versioned_test = omega arith

known_test : current_host_version host.log ≤ highest_version (system_versions Machine registry)
unfolding current_host_version first_success highest_version
known_test = omega arith

apply_system_migrations-IsLogged_example :
    IsLogged Machine clock []
      (due_after Machine clock (current_host_version host.log) registry)
      (current_host_version host.log)
      host
      (apply_system_migrations Machine clock true registry host)
    × (current_host_version host.log
          + length (due_after Machine clock (current_host_version host.log) registry)
        ≡ highest_version (system_versions Machine registry))
apply_system_migrations-IsLogged_example =
    apply_system_migrations-IsLogged Machine clock registry host contiguous_test versioned_test
      known_test
