-- ===== src/Migrations/Database/Tests.antt =====
-- Tests of the runner, and its theorems, on a database whose content is the list of its tables.
use mathlib.Core.Logic.{◌⊎◌}
use cloud_in_a_bottle.Shared.{
  Bool, List, List_eq, Option, [], ap, arith, elem, false, if◌then◌else◌, ltb, none, not, refl,
  some, true, ℕ, ℕ_eq, ◌++◌, ◌∷◌, ◌≡◌, ◌≤◌,
}
use cloud_in_a_bottle.Migrations.Versions.{is_contiguous, highest_version}
use cloud_in_a_bottle.Migrations.Database.{
  Sqlite, Db, Migration, MigrationError, versions, read_version, apply, init_fresh, run_pending,
  stamped, apply_under_lock, apply_migrations, failed,
}
use cloud_in_a_bottle.Migrations.Database.Runs.{IsStopped}
use cloud_in_a_bottle.Migrations.Database.Outcomes.{
  apply_migrations_version, apply_migrations_raises,
}
use cloud_in_a_bottle.Migrations.Database.Upgrades.{
  IsStep, apply_migrations-append, apply_migrations_completes,
}

abbrev is_empty : List ℕ → Bool
is_empty [] = true
is_empty (x ∷ xs) = false

-- Table 0 is schema_version.
abbrev tables : Sqlite
tables = record {
  Content = List ℕ;
  Exception = ℕ;
  has_tables = λ c. not (is_empty c);
  has_version_table = λ c. elem 0 c;
  schema_sql = λ c. (0 ∷ 10 ∷ c, none);
  has_tables_of_version_table = any_table;
}
  where
    any_table : (c : List ℕ) → elem 0 c ≡ true → not (is_empty c) ≡ true
    any_table [] h = h
    any_table (x ∷ c) h = refl

abbrev creates : ℕ → ℕ → Migration tables
creates v table = record { version = v; statements = λ c. (table ∷ c, none) }

abbrev breaks : ℕ → Migration tables
breaks v = record { version = v; statements = λ c. (99 ∷ c, some 7) }

abbrev release_3 : List (Migration tables)
release_3 = creates 2 20 ∷ creates 3 30 ∷ []

abbrev release_4 : List (Migration tables)
release_4 = creates 4 40 ∷ []

abbrev broken : List (Migration tables)
broken = creates 2 20 ∷ breaks 3 ∷ creates 4 40 ∷ []

abbrev at_1 : Db tables
at_1 = record { content = 0 ∷ 10 ∷ []; version_row = some 1 }

abbrev fresh : Db tables
fresh = record { content = []; version_row = none }

fresh_test :
    apply_migrations tables release_3 fresh
    ≡ (none, record { content = 0 ∷ 10 ∷ []; version_row = some 3 })
unfolding apply_migrations apply_under_lock init_fresh stamped highest_version is_contiguous
    read_version
fresh_test = refl

broken_test :
    apply_migrations tables broken at_1
    ≡ (some (failed 7), record { content = 20 ∷ 0 ∷ 10 ∷ []; version_row = some 2 })
unfolding apply_migrations apply_under_lock run_pending apply stamped read_version highest_version
    is_contiguous
broken_test = refl

upgrade_test :
    apply_migrations tables release_3 at_1
    ≡ (none, record { content = 30 ∷ 20 ∷ 0 ∷ 10 ∷ []; version_row = some 3 })
unfolding apply_migrations apply_under_lock run_pending apply stamped read_version highest_version
    is_contiguous
upgrade_test = refl

upgrade_ends : (apply_migrations tables release_3 at_1).0 ≡ none
upgrade_ends = ap (λ (o : Option (MigrationError tables) × Db tables). o.0) upgrade_test

contiguous_test : is_contiguous (versions tables (release_3 ++ release_4)) ≡ true
unfolding is_contiguous
contiguous_test = refl

versioned_test : 1 ≤ read_version tables at_1
unfolding read_version
versioned_test = omega arith

known_test : read_version tables at_1 ≤ highest_version (versions tables release_3)
unfolding read_version highest_version
known_test = omega arith

release_contiguous : is_contiguous (versions tables release_3) ≡ true
unfolding is_contiguous
release_contiguous = refl

apply_migrations_version_example :
    read_version tables (apply_migrations tables release_3 at_1).1
    ≡ highest_version (versions tables release_3)
apply_migrations_version_example = apply_migrations_version tables release_3 at_1 upgrade_ends

apply_migrations_raises_example :
    (record { content = 20 ∷ 0 ∷ 10 ∷ []; version_row = some 2 } ≡ at_1)
    ⊎ IsStopped tables broken
        (read_version tables at_1)
        at_1
        (failed 7)
        (record { content = 20 ∷ 0 ∷ 10 ∷ []; version_row = some 2 })
apply_migrations_raises_example =
    apply_migrations_raises tables broken at_1 (failed 7)
      (record { content = 20 ∷ 0 ∷ 10 ∷ []; version_row = some 2 }) broken_test

apply_migrations-append_example :
    apply_migrations tables (release_3 ++ release_4) (apply_migrations tables release_3 at_1).1
    ≡ apply_migrations tables (release_3 ++ release_4) at_1
apply_migrations-append_example =
    apply_migrations-append tables release_3 release_4 at_1 contiguous_test versioned_test
      known_test upgrade_ends

-- It raises on a database that has no table 20, which version 2 creates.
abbrev alters : Migration tables
alters = record { version = 3; statements = λ c. if elem 20 c then (30 ∷ c, none) else (c, some 7) }

abbrev release_alters : List (Migration tables)
release_alters = creates 2 20 ∷ alters ∷ []

abbrev IsAt : ℕ → List ℕ → Type 0
IsAt v c = (elem 0 c ≡ true) × (ltb 1 v ≡ true → elem 20 c ≡ true)

creates-IsStep : IsStep tables IsAt (creates 2 20)
creates-IsStep v c next (table, later) = (refl, (ground arith, λ past. ground arith))

alters-IsStep : IsStep tables IsAt alters
alters-IsStep v c next (table, later) =
    let has : elem 20 c ≡ true = later (ground arith) in
    rw has (refl, (ground arith, λ past. ground arith))

alters_contiguous : is_contiguous (versions tables release_alters) ≡ true
unfolding is_contiguous
alters_contiguous = refl

alters_known : read_version tables at_1 ≤ highest_version (versions tables release_alters)
unfolding read_version highest_version
alters_known = omega arith

at_1-IsAt : IsAt (read_version tables at_1) at_1.content
unfolding read_version
at_1-IsAt = (refl, λ past. absurd (ground arith))

apply_migrations_completes_example :
    ((apply_migrations tables release_alters at_1).0 ≡ none)
    × (read_version tables (apply_migrations tables release_alters at_1).1
        ≡ highest_version (versions tables release_alters))
    × IsAt
        (highest_version (versions tables release_alters))
        (apply_migrations tables release_alters at_1).1.content
apply_migrations_completes_example =
    apply_migrations_completes tables IsAt (λ v c at_v. at_v.0) release_alters at_1
      alters_contiguous (creates-IsStep, (alters-IsStep, tt)) versioned_test alters_known at_1-IsAt
