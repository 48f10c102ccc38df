-- ===== src/Migrations/System/Logged.antt =====
-- What the log of a host says after `apply_system_migrations` of
-- openhost_system_agent/src/openhost_system_agent/migrations/runner.py.
use native.Mathlib.Decide.{dec_lt}
use Prim.Native.Nat.{max}
use mathlib.Core.List.{append-nil, append_assoc, reverse-append}
use mathlib.Core.Path.{subst}
use cloud_in_a_bottle.Shared.{
  List, List_eq, Option-cases, Result, String_eq, Text, [], ap, arith, before, false, filter,
  if◌then◌else◌, inl, inr, length, length-map, ltb, none, ok, raise, refl, some, split, sym, true,
  ℕ, ℕ_eq, ◌++◌, ◌+◌, ◌-◌, ◌<◌, ◌∙◌, ◌∷◌, ◌≡◌, ◌≤◌,
}
use cloud_in_a_bottle.Migrations.Versions.{
  is_contiguous, highest_version, IsRun, is_contiguous-IsRun, highest_version_lem,
}
use cloud_in_a_bottle.Migrations.System.{
  LogEntry, first_success, current_host_version, SystemMigration, Host, SystemError, failed,
  system_versions, success_entry, failure_entry, append_entry, run_registry,
  apply_system_migrations,
}

-- The last entry of a log decides, where it is one of success.
pub current_host_version-append :
    (log : List LogEntry) (e : LogEntry)
    → current_host_version (log ++ e ∷ [])
      ≡ (if e.success then e.version else current_host_version log)
unfolding current_host_version first_success
current_host_version-append log e = ap first_success (reverse-append log (e ∷ []))

module _ (Machine : Type 0) (clock : ℕ → Text) where
  abbrev Ended : Type 0
  Ended = Result (SystemError Machine) (List ℕ) × Host Machine

  abbrev pub run : List (SystemMigration Machine) → ℕ → List ℕ → Host Machine → Ended
  run = run_registry Machine clock

  -- The host after a migration that returned.
  abbrev pub applied_to : SystemMigration Machine → Host Machine → Host Machine
  applied_to m host =
      append_entry Machine clock (m.up host.machine).0 (success_entry Machine clock m.version)
        host.log

  abbrev failed_on : SystemMigration Machine → Host Machine → Text → Host Machine
  failed_on m host message =
      append_entry Machine clock (m.up host.machine).0
        (failure_entry Machine clock m.version message) host.log

  run_nil :
      (current : ℕ) (applied : List ℕ) (host : Host Machine)
      → run [] current applied host ≡ (ok applied, host)
  unfolding run_registry
  run_nil current applied host = refl

  run_skip :
      (m : SystemMigration Machine) (registry : List (SystemMigration Machine)) (current : ℕ)
      (applied : List ℕ) (host : Host Machine)
      → m.version ≤ current
      → run (m ∷ registry) current applied host ≡ run registry current applied host
  unfolding run_registry
  run_skip m registry current applied host le = ground arith

  run-applied_to :
      (m : SystemMigration Machine) (registry : List (SystemMigration Machine)) (current : ℕ)
      (applied : List ℕ) (host : Host Machine)
      → current < m.version
      → (m.up host.machine).1 ≡ none
      → run (m ∷ registry) current applied host
        ≡ run registry m.version (applied ++ m.version ∷ []) (applied_to m host)
  unfolding run_registry
  run-applied_to m registry current applied host lt done = ground arith

  run_stop :
      (m : SystemMigration Machine) (registry : List (SystemMigration Machine)) (current : ℕ)
      (applied : List ℕ) (host : Host Machine) (message : Text)
      → current < m.version
      → (m.up host.machine).1 ≡ some message
      → run (m ∷ registry) current applied host ≡ (raise (failed message), failed_on m host message)
  unfolding run_registry
  run_stop m registry current applied host message lt stop = ground arith

  version-applied_to :
      (m : SystemMigration Machine) (host : Host Machine)
      → current_host_version (applied_to m host).log ≡ m.version
  unfolding append_entry
  version-applied_to m host =
      current_host_version-append host.log (success_entry Machine clock m.version)

  version-failed_on :
      (m : SystemMigration Machine) (host : Host Machine) (message : Text)
      → current_host_version (failed_on m host message).log ≡ current_host_version host.log
  unfolding append_entry
  version-failed_on m host message =
      current_host_version-append host.log (failure_entry Machine clock m.version message)

  -- The migrations returned one after the other, each on the machine that the one before left, and each
  -- is an entry of success in the log.
  pub data Upgraded : List (SystemMigration Machine) → Host Machine → Host Machine → Type 0 where
    upgraded_none : {host : Host Machine} → Upgraded [] host host
    upgraded_by :
        {m : SystemMigration Machine} {migrations : List (SystemMigration Machine)}
        {host after : Host Machine}
        → (m.up host.machine).1 ≡ none
        → Upgraded migrations
            (record {
              machine = (m.up host.machine).0;
              log = host.log ++ success_entry Machine clock m.version ∷ [];
            })
            after
        → Upgraded (m ∷ migrations) host after

  -- A host at a version, after migrations that were due: each returned, and the last is the host's
  -- version; or some returned and then one raised, which left the machine as it is and the entry of its
  -- failure at the end of the log.
  abbrev pub IsLogged : List ℕ → List (SystemMigration Machine) → ℕ → Host Machine → Ended → Type 0
  IsLogged before due current host (ok applied, after) =
      Upgraded due host after
      × (applied ≡ before ++ system_versions Machine due)
      × (current_host_version after.log ≡ current + length due)
  IsLogged before due current host (raise exception, after) =
      (done : List (SystemMigration Machine)) × (m : SystemMigration Machine) × (rest : List
        (SystemMigration Machine))
      × (reached : Host Machine) × (message : Text) × (due ≡ done ++ m ∷ rest)
      × Upgraded done host reached
      × (m.up reached.machine ≡ (after.machine, some message))
      × (exception ≡ failed message)
      × (after.log ≡ reached.log ++ failure_entry Machine clock m.version message ∷ [])
      × (current_host_version after.log + 1 ≡ m.version)

  IsLogged-cons :
      (before : List ℕ) (m : SystemMigration Machine) (due : List (SystemMigration Machine))
      (current : ℕ) (host : Host Machine) (o : Ended)
      → (m.up host.machine).1 ≡ none
      → IsLogged (before ++ m.version ∷ []) due (current + 1) (applied_to m host) o
      → IsLogged before (m ∷ due) current host o
  unfolding append_entry
  IsLogged-cons before m due current host (ok applied, after) returned (up, same, top) = (
    upgraded_by returned up,
    same ∙ append_assoc before (m.version ∷ []) (system_versions Machine due),
    omega (arith, top),
  )
  IsLogged-cons before m due current host (raise exception, after) returned
        (done, n, rest, reached, message, split, up, raised, is, log, next) =
      (
        m ∷ done,
        n,
        rest,
        reached,
        message,
        ap (◌∷◌ m) split,
        upgraded_by returned up,
        raised,
        is,
        log,
        next,
      )

  -- A run of which no migration is skipped.
  run-IsLogged :
      (due : List (SystemMigration Machine)) (current : ℕ) (applied : List ℕ) (host : Host Machine)
      → IsRun (current + 1) (system_versions Machine due)
      → current_host_version host.log ≡ current
      → IsLogged applied due current host (run due current applied host)
  unfolding append_entry
  run-IsLogged [] current applied host is_run at_current =
      subst (IsLogged applied [] current host) (sym (run_nil current applied host))
        (upgraded_none, sym (append-nil applied), omega (arith, at_current))
  run-IsLogged (m ∷ due) current applied host (is, is_run) at_current =
      elim (Option-cases (m.up host.machine).1) [
        | inl returned ↦
            let next = run due m.version (applied ++ m.version ∷ []) (applied_to m host) in
            let later : IsLogged (applied ++ m.version ∷ []) due m.version (applied_to m host)
                next =
              run-IsLogged due m.version (applied ++ m.version ∷ []) (applied_to m host)
                (subst (λ v. IsRun (v + 1) (system_versions Machine due)) (sym is) is_run)
                (version-applied_to m host) in
            subst (IsLogged applied (m ∷ due) current host)
              (sym (run-applied_to m due current applied host (omega (arith, is)) returned))
              (IsLogged-cons applied m due current host next returned (
                subst (λ v. IsLogged (applied ++ m.version ∷ []) due v (applied_to m host) next) is
                  later))
        | inr (message, raised) ↦
            subst (IsLogged applied (m ∷ due) current host)
              (sym (run_stop m due current applied host message (omega (arith, is)) raised))
              (
                [],
                m,
                due,
                host,
                message,
                refl,
                upgraded_none,
                ap (λ e. ((m.up host.machine).0, e)) raised,
                refl,
                refl,
                omega (arith, version-failed_on m host message, at_current, is),
              )
      ]

  -- The migrations past a version.
  abbrev pub due_after : ℕ → List (SystemMigration Machine) → List (SystemMigration Machine)
  due_after current = filter (λ m. ltb current m.version)

  due_after-run :
      (start current : ℕ) (registry : List (SystemMigration Machine))
      → IsRun start (system_versions Machine registry)
      → current < start
      → due_after current registry ≡ registry
  due_after-run start current [] is_run past = refl
  due_after-run start current (m ∷ registry) (is, is_run) past =
      ground (arith, due_after-run (start + 1) current registry is_run, is)

  -- The loop skips the others, and those past the version follow on it.
  run-due_after :
      (start current : ℕ) (registry : List (SystemMigration Machine)) (host : Host Machine)
      → IsRun start (system_versions Machine registry)
      → start ≤ current + 1
      → (run registry current [] host ≡ run (due_after current registry) current [] host)
        × IsRun (current + 1) (system_versions Machine (due_after current registry))
        × (current + length (due_after current registry)
            ≡ max current (start + length registry - 1))
  run-due_after start current [] host is_run low = (refl, tt, omega arith)
  run-due_after start current (m ∷ registry) host (is, is_run) low =
      elim (dec_lt current m.version) [
        | no old ↦
            let skipped : ltb current m.version ≡ false = ground arith in
            let (same, later, top) =
              run-due_after (start + 1) current registry host is_run (omega arith) in
            rw skipped
              (run_skip m registry current [] host (omega arith) ∙ same, later, omega (arith, top))
        | yes new ↦
            let all : due_after current (m ∷ registry) ≡ m ∷ registry =
              due_after-run start current (m ∷ registry) (is, is_run) (omega arith) in
            rw all (
              refl,
              subst (λ n. IsRun n (system_versions Machine (m ∷ registry))) {x = start}
                  (omega arith) (is, is_run),
              omega arith,
            )
      ]

  -- A run as root, on a host whose version the registry knows, runs the migrations past that version in
  -- their order, each on the machine that the one before left. Where none raises, each has its entry of
  -- success, their versions are returned, and the host is at the highest version of the registry. The
  -- first that raises ends the run with its message: the machine is as it left it, the entry of its
  -- failure is the last of the log, and the version of the host is the one before.
  pub apply_system_migrations-IsLogged :
      (registry : List (SystemMigration Machine)) (host : Host Machine)
      → is_contiguous (system_versions Machine registry) ≡ true
      → 1 ≤ current_host_version host.log
      → current_host_version host.log ≤ highest_version (system_versions Machine registry)
      → IsLogged []
          (due_after (current_host_version host.log) registry)
          (current_host_version host.log)
          host
          (apply_system_migrations Machine clock true registry host)
        × (current_host_version host.log
              + length (due_after (current_host_version host.log) registry)
            ≡ highest_version (system_versions Machine registry))
  unfolding apply_system_migrations
  apply_system_migrations-IsLogged registry host good versioned known =
      let current = current_host_version host.log in
      let top = highest_version_lem (system_versions Machine registry) good in
      let same_length = length-map (λ (m : SystemMigration Machine). m.version) registry in
      let (same, is_run, reaches) =
        run-due_after 2 current registry host
          (is_contiguous-IsRun (system_versions Machine registry) good) (omega arith) in
      let runs : run registry current [] host
          ≡ apply_system_migrations Machine clock true registry host =
        ground arith in
      (
        subst (IsLogged [] (due_after current registry) current host) (sym same ∙ runs)
            (run-IsLogged (due_after current registry) current [] host is_run refl),
        omega (arith, reaches, top, same_length, known),
      )
