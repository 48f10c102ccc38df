-- ===== src/Migrations/Database.antt =====
-- compute_space/src/compute_space/db/versioned (runner.py, base.py): schema migrations of the router's
-- database. What a database holds besides the version, the statements of schema.sql and the body of a
-- migration are parameters; a transaction that fails leaves the committed state.
pub mod Runs
pub mod Outcomes
pub mod Upgrades
mod Tests
use cloud_in_a_bottle.Shared.{
  Bool, List, List_eq, Option, [], if◌then◌else◌, leb, ltb, map, none, not, some, true, ℕ, ℕ_eq,
  ◌==◌, ◌∷◌, ◌≡◌,
}
use cloud_in_a_bottle.Migrations.Versions.{is_contiguous, highest_version}

-- SQLite, as the runner sees it: statements that run on the content, and either end or raise with the
-- content that they had reached.
pub record Sqlite : Type 1 where
  pub Content : Type 0
  pub Exception : Type 0
  pub has_tables : Content → Bool
  pub has_version_table : Content → Bool
  pub schema_sql : Content → Content × Option Exception
  pub has_tables_of_version_table : (c : Content) → has_version_table c ≡ true → has_tables c ≡ true

module _ (sqlite : Sqlite) where
  open sqlite use {Content, Exception, has_tables, has_version_table, schema_sql}

  -- The content, and the row of schema_version.
  pub record Db : Type 0 where
    pub content : Content
    pub version_row : Option ℕ

  -- A Python migration runs `up`; a SQL file migration runs its script.
  pub record Migration : Type 0 where
    pub version : ℕ
    pub statements : Content → Content × Option Exception

  pub data MigrationError : Type 0 where
    bad_registry : MigrationError
    newer_database : ℕ → ℕ → MigrationError
    pre_versioned : MigrationError
    no_version_table : MigrationError
    failed : Exception → MigrationError

  abbrev pub versions : List Migration → List ℕ
  versions = map (λ m. m.version)

  unfoldable pub read_version : Db → ℕ
  read_version db =
      if has_version_table db.content then elim db.version_row [ none ↦ 0 | some v ↦ v ] else 0

  -- One transaction: the statements, then the stamp. Where either raises, ROLLBACK.
  unfoldable pub stamped : ℕ → Db → Content × Option Exception → Option MigrationError × Db
  stamped version db (content, some e) = (some (failed e), db)
  stamped version db (content, none) =
      if has_version_table content
      then (none, record { content = content; version_row = some version })
      else (some no_version_table, db)

  unfoldable pub apply : Migration → Db → Option MigrationError × Db
  unfolding stamped
  apply m db = stamped m.version db (m.statements db.content)

  unfoldable pub init_fresh : ℕ → Db → Option MigrationError × Db
  unfolding stamped
  init_fresh highest db = stamped highest db (schema_sql db.content)

  -- The loop over the registry, with `current` carried along.
  unfoldable pub run_pending : List Migration → ℕ → Db → Option MigrationError × Db
  run_pending [] current db = (none, db)
  run_pending (m ∷ registry) current db =
      let skipped = run_pending registry current db in
      let applied = apply m db in
      let next = run_pending registry m.version applied.1 in
      if leb m.version current
      then skipped
      else elim applied.0 [ none ↦ next | some e ↦ (some e, applied.1) ]

  unfoldable pub apply_under_lock : List Migration → ℕ → Db → Option MigrationError × Db
  apply_under_lock registry highest db =
      let current = read_version db in
      if ltb highest current
      then (some (newer_database current highest), db)
      else if not (has_tables db.content)
      then init_fresh highest db
      else if current == 0
      then (some pre_versioned, db)
      else run_pending registry current db

  -- The lock file keeps other processes out for the whole of the call.
  unfoldable pub apply_migrations : List Migration → Db → Option MigrationError × Db
  apply_migrations registry db =
      if is_contiguous (versions registry)
      then apply_under_lock registry (highest_version (versions registry)) db
      else (some bad_registry, db)
