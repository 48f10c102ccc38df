-- ===== src/Migrations/Database/Runs.antt =====
-- What a call of `apply_migrations` leaves behind, when it ends, when it raises, and when it is
-- made again.
use native.Mathlib.Decide.{dec_lt}
use Prim.Native.Nat.{max}
use cloud_in_a_bottle.Shared.{
  All, List, List_eq, Option, Option-cases, [], ap, arith, inl, inr, length, none, refl, some, sym,
  ℕ, ℕ_eq, ◌++◌, ◌+◌, ◌-◌, ◌<◌, ◌∙◌, ◌∷◌, ◌≡◌, ◌≤◌,
}
use cloud_in_a_bottle.Migrations.Versions.{IsRun}
use cloud_in_a_bottle.Migrations.Database.{
  Sqlite, Db, Migration, MigrationError, versions, read_version, apply, run_pending, stamped,
}

module _ (sqlite : Sqlite) where
  open sqlite use {Content, Exception, has_tables, has_version_table, schema_sql}

  -- A transaction stamps its version, or leaves the database as it was.
  pub stamped_ok :
      (version : ℕ) (db : Db sqlite) (out : Content × Option Exception)
      → (stamped sqlite version db out).0 ≡ none
      → read_version sqlite (stamped sqlite version db out).1 ≡ version
  unfolding stamped read_version
  stamped_ok version db (content, some e) h = cc
  stamped_ok version db (content, none) h = ground arith

  pub stamped_raises :
      (version : ℕ) (db : Db sqlite) (out : Content × Option Exception) (e : MigrationError sqlite)
      → (stamped sqlite version db out).0 ≡ some e
      → (stamped sqlite version db out).1 ≡ db
  unfolding stamped
  stamped_raises version db (content, some x) e h = refl
  stamped_raises version db (content, none) e h = ground arith

  pub apply_ok :
      (m : Migration sqlite) (db : Db sqlite)
      → (apply sqlite m db).0 ≡ none
      → read_version sqlite (apply sqlite m db).1 ≡ m.version
  unfolding apply
  apply_ok m db h = stamped_ok m.version db (m.statements db.content) h

  pub apply_raises :
      (m : Migration sqlite) (db : Db sqlite) (e : MigrationError sqlite)
      → (apply sqlite m db).0 ≡ some e
      → (apply sqlite m db).1 ≡ db
  unfolding apply
  apply_raises m db e h = stamped_raises m.version db (m.statements db.content) e h

  abbrev pub run :
      List (Migration sqlite) → ℕ → Db sqlite → Option (MigrationError sqlite) × Db sqlite
  run = run_pending sqlite

  pub run_nil : (current : ℕ) (db : Db sqlite) → run [] current db ≡ (none, db)
  unfolding run_pending
  run_nil current db = refl

  -- One round of the loop, by its three ways to go on.
  pub run_skip :
      (m : Migration sqlite) (registry : List (Migration sqlite)) (current : ℕ) (db : Db sqlite)
      → m.version ≤ current
      → run (m ∷ registry) current db ≡ run registry current db
  unfolding run_pending
  run_skip m registry current db le = ground arith

  pub run-apply :
      (m : Migration sqlite) (registry : List (Migration sqlite)) (current : ℕ) (db : Db sqlite)
      → current < m.version
      → (apply sqlite m db).0 ≡ none
      → run (m ∷ registry) current db ≡ run registry m.version (apply sqlite m db).1
  unfolding run_pending
  run-apply m registry current db lt done = ground arith

  pub run_stop :
      (m : Migration sqlite) (registry : List (Migration sqlite)) (current : ℕ) (db : Db sqlite)
      (e : MigrationError sqlite)
      → current < m.version
      → (apply sqlite m db).0 ≡ some e
      → run (m ∷ registry) current db ≡ (some e, db)
  unfolding run_pending
  run_stop m registry current db e lt stop = ground (arith, apply_raises m db e stop)

  pub run_pending_reach :
      (registry : List (Migration sqlite)) (start current : ℕ) (db : Db sqlite)
      → IsRun start (versions sqlite registry)
      → start ≤ current + 1
      → read_version sqlite db ≡ current
      → (run registry current db).0 ≡ none
      → read_version sqlite (run registry current db).1 ≡ max current (start + length registry - 1)
  unfolding run_pending
  run_pending_reach [] start current db is_run low at_current h = omega arith
  run_pending_reach (m ∷ registry) start current db is_run low at_current h =
      elim (dec_lt current m.version) [
        | no old ↦
            let skip = run_skip m registry current db (omega arith) in
            let later =
              run_pending_reach registry (start + 1) current db is_run.1 (omega arith) at_current
                (rw skip at h) in
            rw skip (omega (arith, later, is_run.0))
        | yes new ↦ elim (Option-cases (apply sqlite m db).0) [
          | inl done ↦
              let step = run-apply m registry current db new done in
              let later =
                run_pending_reach registry (start + 1) m.version (apply sqlite m db).1 is_run.1
                  (omega (arith, is_run.0)) (apply_ok m db done) (rw step at h) in
              rw step (omega (arith, later, is_run.0))
          | inr (e, stop) ↦ absurd (ground (arith, run_stop m registry current db e new stop))
        ]
      ]

  -- Where a run raised: the migrations before the one that raised are committed, and nothing of it is.
  pub record IsStopped (registry : List (Migration sqlite)) (current : ℕ) (db : Db sqlite)
      (e : MigrationError sqlite) (after : Db sqlite) : Type 0 where
    pub done : List (Migration sqlite)
    pub failing : Migration sqlite
    pub rest : List (Migration sqlite)
    pub split : registry ≡ done ++ failing ∷ rest
    pub before : run done current db ≡ (none, after)
    pub next : failing.version ≡ read_version sqlite after + 1
    pub raised : apply sqlite failing after ≡ (some e, after)

  pub run_pending-IsStopped :
      (registry : List (Migration sqlite)) (start current : ℕ) (db : Db sqlite)
      (e : MigrationError sqlite) (after : Db sqlite)
      → IsRun start (versions sqlite registry)
      → start ≤ current + 1
      → read_version sqlite db ≡ current
      → run registry current db ≡ (some e, after)
      → IsStopped registry current db e after
  run_pending-IsStopped [] start current db e after is_run low at_current h =
      absurd (ground (arith, run_nil current db))
  run_pending-IsStopped (m ∷ registry) start current db e after is_run low at_current h =
      elim (dec_lt current m.version) [
        | no old ↦
            let skip = run_skip m registry current db (omega arith) in
            let s =
              run_pending-IsStopped registry (start + 1) current db e after is_run.1 (omega arith)
                at_current (sym skip ∙ h) in
            record {
              done = m ∷ s.done;
              failing = s.failing;
              rest = s.rest;
              split = ap (◌∷◌ m) s.split;
              before = run_skip m s.done current db (omega arith) ∙ s.before;
              next = s.next;
              raised = s.raised;
            }
        | yes new ↦ elim (Option-cases (apply sqlite m db).0) [
          | inl done ↦
              let step = run-apply m registry current db new done in
              let s =
                run_pending-IsStopped registry (start + 1) m.version (apply sqlite m db).1 e after
                  is_run.1 (omega (arith, is_run.0)) (apply_ok m db done) (sym step ∙ h) in
              record {
                done = m ∷ s.done;
                failing = s.failing;
                rest = s.rest;
                split = ap (◌∷◌ m) s.split;
                before = run-apply m s.done current db new done ∙ s.before;
                next = s.next;
                raised = s.raised;
              }
          | inr (x, stop) ↦
              let here = sym (run_stop m registry current db x new stop) ∙ h in
              let same : db ≡ after =
                ap (λ (o : Option (MigrationError sqlite) × Db sqlite). o.1) here in
              let same_e : some x ≡ some e =
                ap (λ (o : Option (MigrationError sqlite) × Db sqlite). o.0) here in
              record {
                done = [];
                failing = m;
                rest = registry;
                split = refl;
                before = run_nil current db ∙ ap (λ d. (none, d)) same;
                next = rw (← same) (omega (arith, is_run.0));
                raised = rw (← same) (ground (arith, apply_raises m db x stop));
              }
        ]
      ]

  pub run_of_done :
      (registry : List (Migration sqlite)) (current : ℕ) (db : Db sqlite)
      → All (λ v. v ≤ current) (versions sqlite registry)
      → run registry current db ≡ (none, db)
  unfolding run_pending
  run_of_done [] current db h = refl
  run_of_done (m ∷ registry) current db (old, h) =
      run_skip m registry current db old ∙ run_of_done registry current db h
