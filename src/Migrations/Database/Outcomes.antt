-- ===== src/Migrations/Database/Outcomes.antt =====
-- The outcomes of `apply_migrations`: it ends at the highest version, it raises and leaves a committed
-- prefix, and a second call changes nothing.
use native.Mathlib.Decide.{dec_lt}
use mathlib.Core.Path.{subst}
use cloud_in_a_bottle.Shared.{
  All, Bool-cases, List, List_eq, Option, arith, inl, inr, length-map, none, refl, some, sym, true,
  ℕ, ℕ_eq, ◌∙◌, ◌≡◌, ◌≤◌, ◌⊎◌,
}
use cloud_in_a_bottle.Migrations.Versions.{
  is_contiguous, highest_version, is_contiguous-IsRun, highest_version_lem, All-le-highest,
}
use cloud_in_a_bottle.Migrations.Database.{
  Sqlite, Db, Migration, MigrationError, versions, read_version, init_fresh, apply_under_lock,
  apply_migrations,
}
use cloud_in_a_bottle.Migrations.Database.Runs.{
  IsStopped, run_pending-IsStopped, run_pending_reach, run_of_done, stamped_ok, run, stamped_raises,
}

module _ (sqlite : Sqlite) (registry : List (Migration sqlite)) (db : Db sqlite) where
  abbrev highest : ℕ
  highest = highest_version (versions sqlite registry)

  abbrev result : Option (MigrationError sqlite) × Db sqlite
  result = apply_migrations sqlite registry db

  -- A call that ends without an exception leaves the database at the highest version of the
  -- registry, whether the database was fresh, behind or already there.
  pub apply_migrations_version :
      (apply_migrations sqlite registry db).0 ≡ none
      → read_version sqlite (apply_migrations sqlite registry db).1
        ≡ highest_version (versions sqlite registry)
  unfolding apply_migrations apply_under_lock init_fresh
  apply_migrations_version h = elim (Bool-cases (is_contiguous (versions sqlite registry))) [
    | inr bad ↦ absurd (ground arith)
    | inl good ↦
        let reach =
          run_pending_reach sqlite registry 2 (read_version sqlite db) db
            (is_contiguous-IsRun (versions sqlite registry) good) in
        let top = highest_version_lem (versions sqlite registry) good in
        let same_length = length-map (λ (m : Migration sqlite). m.version) registry in
        ground (
          arith,
          reach,
          top,
          same_length,
          stamped_ok sqlite highest db (sqlite.schema_sql db.content),
        )
  ]

  -- A database with a version has tables.
  has_tables_of_read :
      (d : Db sqlite) → 1 ≤ read_version sqlite d → sqlite.has_tables d.content ≡ true
  unfolding read_version
  has_tables_of_read d h = ground (arith, sqlite.has_tables_of_version_table d.content)

  -- What a call does on a database whose version the registry knows: the loop.
  pub apply_migrations-run :
      is_contiguous (versions sqlite registry) ≡ true
      → 1 ≤ read_version sqlite db
      → read_version sqlite db ≤ highest_version (versions sqlite registry)
      → apply_migrations sqlite registry db ≡ run sqlite registry (read_version sqlite db) db
  unfolding apply_migrations apply_under_lock
  apply_migrations-run good versioned known = ground (arith, has_tables_of_read db versioned)

  pub apply_migrations_good :
      (apply_migrations sqlite registry db).0 ≡ none
      → is_contiguous (versions sqlite registry) ≡ true
  unfolding apply_migrations
  apply_migrations_good h = ground arith

  -- Where a call raises, it leaves the database as it was, or the migrations before the one that
  -- raised are committed and nothing of that one is.
  pub apply_migrations_raises :
      (e : MigrationError sqlite) (after : Db sqlite)
      → apply_migrations sqlite registry db ≡ (some e, after)
      → (after ≡ db) ⊎ IsStopped sqlite registry (read_version sqlite db) db e after
  unfolding apply_migrations apply_under_lock init_fresh
  apply_migrations_raises e after h = elim (Bool-cases (is_contiguous (versions sqlite registry))) [
    | inr bad ↦ inl (ground arith)
    | inl good ↦ elim (Bool-cases (sqlite.has_tables db.content)) [
      | inr empty ↦
          inl (ground (arith, stamped_raises sqlite highest db (sqlite.schema_sql db.content) e))
      | inl tables ↦ elim (dec_lt highest (read_version sqlite db)) [
        | yes newer ↦ inl (ground arith)
        | no known ↦ elim (dec_lt 0 (read_version sqlite db)) [
          | no old ↦ inl (ground arith)
          | yes versioned ↦ inr (
              run_pending-IsStopped sqlite registry 2 (read_version sqlite db) db e after
                (is_contiguous-IsRun (versions sqlite registry) good) (omega arith) refl
                (sym (apply_migrations-run good versioned (omega arith)) ∙ h))
        ]
      ]
    ]
  ]

module _ (sqlite : Sqlite) (registry : List (Migration sqlite)) (db : Db sqlite) where
  -- A second call, after one that ended without an exception, changes nothing.
  pub apply_migrations_again :
      (apply_migrations sqlite registry db).0 ≡ none
      → apply_migrations sqlite registry (apply_migrations sqlite registry db).1
        ≡ (none, (apply_migrations sqlite registry db).1)
  apply_migrations_again h =
      let good = apply_migrations_good sqlite registry db h in
      let at_top = apply_migrations_version sqlite registry db h in
      let top = highest_version_lem (versions sqlite registry) good in
      let after = (apply_migrations sqlite registry db).1 in
      apply_migrations-run sqlite registry after good (omega (arith, at_top, top))
        (omega (arith, at_top))
      ∙ run_of_done sqlite registry (read_version sqlite after) after (
          subst (λ v. All (λ w. w ≤ v) (versions sqlite registry)) (sym at_top)
            (All-le-highest (versions sqlite registry) good))
