-- ===== src/Migrations/System.antt =====
-- openhost_system_agent/src/openhost_system_agent/migrations (runner.py, migration_log.py): migrations
-- of the host, which keep a log. What a migration does to the host is a parameter; it is no
-- transaction: a migration that raises leaves what it did so far.
pub mod Logged
mod Tests
use mathlib.Core.List.{reverse}
use cloud_in_a_bottle.Shared.{
  Bool, List, List_eq, Option, Result, String_eq, Text, [], false, if◌then◌else◌, leb, ltb, map,
  none, not, ok, raise, some, true, ℕ, ℕ_eq, ◌++◌, ◌==◌, ◌∷◌,
}
use cloud_in_a_bottle.Migrations.Versions.{is_contiguous, highest_version}

pub record LogEntry : Type 0 where
  pub version : ℕ
  pub timestamp : Text
  pub success : Bool
  pub error : Option Text

-- The version of the first entry that succeeded, or 0.
unfoldable pub first_success : List LogEntry → ℕ
first_success [] = 0
first_success (e ∷ entries) = if e.success then e.version else first_success entries

unfoldable pub current_host_version : List LogEntry → ℕ
current_host_version entries = first_success (reverse entries)

module _ (Machine : Type 0) where
  -- `up` returns, or raises with a message, having changed the machine either way.
  pub record SystemMigration : Type 0 where
    pub version : ℕ
    pub up : Machine → Machine × Option Text

  pub record Host : Type 0 where
    pub machine : Machine
    pub log : List LogEntry

  pub data SystemError : Type 0 where
    bad_registry : SystemError
    not_root : SystemError
    no_history : SystemError
    newer_host : ℕ → ℕ → SystemError
    failed : Text → SystemError

  abbrev pub system_versions : List SystemMigration → List ℕ
  system_versions = map (λ m. m.version)

  -- `clock` says when the entry of a version is written.
  module _ (clock : ℕ → Text) where
    abbrev pub success_entry : ℕ → LogEntry
    success_entry v = record { version = v; timestamp = clock v; success = true; error = none }

    abbrev pub failure_entry : ℕ → Text → LogEntry
    failure_entry v message = record {
      version = v;
      timestamp = clock v;
      success = false;
      error = some message;
    }

    unfoldable pub append_entry : Machine → LogEntry → List LogEntry → Host
    append_entry machine entry log = record { machine = machine; log = log ++ entry ∷ [] }

    -- The loop over the registry, with `current` and `applied` carried along.
    unfoldable pub run_registry :
        List SystemMigration → ℕ → List ℕ → Host → Result SystemError (List ℕ) × Host
    run_registry [] current applied host = (ok applied, host)
    run_registry (m ∷ registry) current applied host =
        let skipped = run_registry registry current applied host in
        let out = m.up host.machine in
        let next =
          run_registry registry m.version (applied ++ m.version ∷ [])
            (append_entry out.0 (success_entry m.version) host.log) in
        if leb m.version current then skipped else elim out.1 [
          | none ↦ next
          | some message ↦ (
            raise (failed message),
            append_entry out.0 (failure_entry m.version message) host.log,
          )
        ]

    unfoldable pub apply_system_migrations :
        Bool → List SystemMigration → Host → Result SystemError (List ℕ) × Host
    apply_system_migrations is_root registry host =
        let highest = highest_version (system_versions registry) in
        let current = current_host_version host.log in
        if not (is_contiguous (system_versions registry))
        then (raise bad_registry, host)
        else if not is_root
        then (raise not_root, host)
        else if current == 0
        then (raise no_history, host)
        else if ltb highest current
        then (raise (newer_host current highest), host)
        else run_registry registry current [] host
