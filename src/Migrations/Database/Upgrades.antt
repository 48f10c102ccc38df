-- ===== src/Migrations/Database/Upgrades.antt =====
-- Upgrades through several releases of the router, and migrations that do not raise.
use native.Mathlib.Decide.{dec_lt}
use Prim.Native.Nat.{max}
use mathlib.Core.Path.{subst}
use cloud_in_a_bottle.Shared.{
  All, List, Option-cases, [], arith, inl, inr, length, length-append, length-map, none, refl, sym,
  true, ℕ, ◌++◌, ◌+◌, ◌-◌, ◌∙◌, ◌∷◌, ◌≡◌, ◌≤◌,
}
use cloud_in_a_bottle.Migrations.Versions.{
  is_contiguous-IsRun, IsRun, is_contiguous, highest_version, highest_version_lem, All-le-highest,
}
use cloud_in_a_bottle.Migrations.Database.{
  Sqlite, Db, Migration, versions, read_version, apply, stamped, apply_migrations,
}
use cloud_in_a_bottle.Migrations.Database.Runs.{
  run, apply_ok, run-apply, run_skip, run_stop, run_nil,
}
use cloud_in_a_bottle.Migrations.Database.Outcomes.{
  apply_migrations-run, apply_migrations_good, apply_migrations_version,
}

module _ (sqlite : Sqlite) where
  open sqlite use {Content, Exception, has_tables, has_version_table, schema_sql}

  -- The loop over two registries, after the loop over the first.
  run-append :
      (xs ys : List (Migration sqlite)) (current : ℕ) (db : Db sqlite)
      → read_version sqlite db ≡ current
      → (run sqlite xs current db).0 ≡ none
      → run sqlite (xs ++ ys) current db
        ≡ run sqlite ys
            (read_version sqlite (run sqlite xs current db).1)
            (run sqlite xs current db).1
  run-append [] ys current db at_current h = rw (run_nil sqlite current db) (rw at_current refl)
  run-append (m ∷ xs) ys current db at_current h = elim (dec_lt current m.version) [
    | no old ↦
        let skip = run_skip sqlite m xs current db (omega arith) in
        rw skip (
          run_skip sqlite m (xs ++ ys) current db (omega arith)
          ∙ run-append xs ys current db at_current (rw skip at h))
    | yes new ↦ elim (Option-cases (apply sqlite m db).0) [
      | inl done ↦
          let step = run-apply sqlite m xs current db new done in
          rw step (
            run-apply sqlite m (xs ++ ys) current db new done
            ∙ run-append xs ys m.version (apply sqlite m db).1 (apply_ok sqlite m db done)
                (rw step at h))
      | inr (e, stop) ↦ absurd (ground (arith, run_stop sqlite m xs current db e new stop))
    ]
  ]

  run-append_done :
      (xs ys : List (Migration sqlite)) (current : ℕ) (db : Db sqlite)
      → All (λ v. v ≤ current) (versions sqlite xs)
      → run sqlite (xs ++ ys) current db ≡ run sqlite ys current db
  run-append_done [] ys current db old = refl
  run-append_done (m ∷ xs) ys current db (old, older) =
      run_skip sqlite m (xs ++ ys) current db old ∙ run-append_done xs ys current db older

  -- An upgrade through an older release, whose registry is the first part of the newer one, ends as
  -- the direct upgrade does, with the same exception where one is raised: for a database whose version
  -- the older release knows, and an upgrade to it that raised nothing.
  pub apply_migrations-append :
      (xs ys : List (Migration sqlite)) (db : Db sqlite)
      → is_contiguous (versions sqlite (xs ++ ys)) ≡ true
      → 1 ≤ read_version sqlite db
      → read_version sqlite db ≤ highest_version (versions sqlite xs)
      → (apply_migrations sqlite xs db).0 ≡ none
      → apply_migrations sqlite (xs ++ ys) (apply_migrations sqlite xs db).1
        ≡ apply_migrations sqlite (xs ++ ys) db
  apply_migrations-append xs ys db whole versioned known h =
      let good = apply_migrations_good sqlite xs db h in
      let at_top = apply_migrations_version sqlite xs db h in
      let top = highest_version_lem (versions sqlite xs) good in
      let all_top = highest_version_lem (versions sqlite (xs ++ ys)) whole in
      let n = length-map (λ (m : Migration sqlite). m.version) xs in
      let n_all = length-map (λ (m : Migration sqlite). m.version) (xs ++ ys) in
      let n_sum = length-append xs ys in
      let first = apply_migrations-run sqlite xs db good versioned known in
      let mid = (apply_migrations sqlite xs db).1 in
      let low : highest_version (versions sqlite xs)
          ≤ highest_version (versions sqlite (xs ++ ys)) =
        omega (arith, top, all_top, n, n_all, n_sum) in
      let direct =
        apply_migrations-run sqlite (xs ++ ys) db whole versioned (omega (arith, low))
        ∙ run-append xs ys (read_version sqlite db) db refl (rw first at h) in
      let second =
        apply_migrations-run sqlite (xs ++ ys) mid whole (omega (arith, at_top, top))
          (omega (arith, at_top, low))
        ∙ run-append_done xs ys (read_version sqlite mid) mid (
            subst (λ v. All (λ w. w ≤ v) (versions sqlite xs)) (sym at_top)
              (All-le-highest (versions sqlite xs) good)) in
      second ∙ (rw first (sym direct))

  -- A migration that, on a content of the schema of the version before its own, ends with one of the
  -- schema of its own; `IsAt` says what the content of a version is.
  abbrev pub IsStep : (ℕ → Content → Type 0) → Migration sqlite → Type 0
  IsStep IsAt m =
      (v : ℕ) (c : Content)
      → m.version ≡ v + 1
      → IsAt v c
      → ((m.statements c).1 ≡ none) × IsAt m.version (m.statements c).0

  module _ (IsAt : ℕ → Content → Type 0)
      (table : (v : ℕ) (c : Content) → IsAt v c → has_version_table c ≡ true) where
    apply_step :
        (m : Migration sqlite) (v : ℕ) (db : Db sqlite)
        → IsStep IsAt m
        → m.version ≡ v + 1
        → IsAt v db.content
        → ((apply sqlite m db).0 ≡ none) × IsAt m.version (apply sqlite m db).1.content
    unfolding apply stamped
    apply_step m v db step next at_v =
        let (ends, at_next) = step v db.content next at_v in
        let kept = table m.version (m.statements db.content).0 at_next in
        let content : (m.statements db.content).0 ≡ (apply sqlite m db).1.content = ground arith in
        (ground arith, subst (IsAt m.version) content at_next)

    run_step :
        (registry : List (Migration sqlite)) (start current : ℕ) (db : Db sqlite)
        → IsRun start (versions sqlite registry)
        → start ≤ current + 1
        → All (IsStep IsAt) registry
        → IsAt current db.content
        → ((run sqlite registry current db).0 ≡ none)
          × IsAt
              (max current (start + length registry - 1))
              (run sqlite registry current db).1.content
    run_step [] start current db is_run low steps at_current =
        rw (run_nil sqlite current db)
          (refl, subst (λ v. IsAt v db.content) (omega arith) at_current)
    run_step (m ∷ registry) start current db (is, is_run) low (step, steps) at_current =
        elim (dec_lt current m.version) [
          | no old ↦
              let (ends, at_top) =
                run_step registry (start + 1) current db is_run (omega arith) steps at_current in
              rw (run_skip sqlite m registry current db (omega arith)) (
                ends,
                subst (λ v. IsAt v (run sqlite registry current db).1.content) (omega arith) at_top,
              )
          | yes new ↦
              let (done, at_next) = apply_step m current db step (omega (arith, is)) at_current in
              let after = (apply sqlite m db).1 in
              let (ends, at_top) =
                run_step registry (start + 1) m.version after is_run (omega (arith, is)) steps
                  at_next in
              rw (run-apply sqlite m registry current db new done) (
                ends,
                subst (λ v. IsAt v (run sqlite registry m.version after).1.content)
                    (omega (arith, is)) at_top,
              )
        ]

    -- Where each migration of a contiguous registry takes the schema of the version before its own, which
    -- has a version table, to the schema of its own, every database with the schema of its version, and
    -- a version that the registry knows, ends without an exception at the highest version, and with the
    -- schema of that version.
    pub apply_migrations_completes :
        (registry : List (Migration sqlite)) (db : Db sqlite)
        → is_contiguous (versions sqlite registry) ≡ true
        → All (IsStep IsAt) registry
        → 1 ≤ read_version sqlite db
        → read_version sqlite db ≤ highest_version (versions sqlite registry)
        → IsAt (read_version sqlite db) db.content
        → ((apply_migrations sqlite registry db).0 ≡ none)
          × (read_version sqlite (apply_migrations sqlite registry db).1
              ≡ highest_version (versions sqlite registry))
          × IsAt
              (highest_version (versions sqlite registry))
              (apply_migrations sqlite registry db).1.content
    apply_migrations_completes registry db good steps versioned known at_version =
        let runs = apply_migrations-run sqlite registry db good versioned known in
        let current = read_version sqlite db in
        let top = highest_version_lem (versions sqlite registry) good in
        let n = length-map (λ (m : Migration sqlite). m.version) registry in
        let (done, at_top) =
          run_step registry 2 current db (is_contiguous-IsRun (versions sqlite registry) good)
            (omega arith) steps at_version in
        let ends : (apply_migrations sqlite registry db).0 ≡ none = rw runs done in
        (
          ends,
          apply_migrations_version sqlite registry db ends,
          rw runs (
              subst (λ v. IsAt v (run sqlite registry current db).1.content)
                (omega (arith, top, n, known)) at_top),
        )
