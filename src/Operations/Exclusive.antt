-- ===== src/Operations/Exclusive.antt =====
-- The lock and the tasks of compute_space/src/compute_space/core/operation_locks.py in every reachable state.
use mathlib.Core.Path.{subst}
use mathlib.Core.List.{map-append}
use cloud_in_a_bottle.Shared.{
  ==_iff, Bool, Bool-cases, List, Option, [], ap, arith, elem, elem-append, false, if◌then◌else◌,
  inl, inr, length, map, none, not, on_branches, refl, some, sym, true, ℕ, ℕ_eq, ◌&&◌, ◌++◌, ◌==◌,
  ◌||◌, ◌∙◌, ◌∷◌, ◌≡◌, ◌≤◌,
}
use cloud_in_a_bottle.Operations.{
  Task, Operations, Step, discard, ended_tasks, initial, start_exclusive_operation, after, finish,
  log_detached_failure, operation_done, Progress, Reachable, at_start, callback, cancelled,
  detach_operation, progress, request, task_ends,
}

elem-discard :
    (q task : Task) (tasks : List Task)
    → elem q (discard task tasks) ≡ (elem q tasks && not (q == task))
unfolding discard
elem-discard q task [] = refl
elem-discard q task (t ∷ tasks) = ground (arith, elem-discard q task tasks)

-- The lock is held exactly while a task runs, and one at most does; a running task is waited for, and a
-- task that is waited for runs or has its callback to come.
pub record IsExclusive (s : Operations) : Type 0 where
  pub counted : length s.running ≡ (if s.locked then 1 else 0)
  pub waited : (q : Task) → elem q s.running ≡ true → elem q s.operation_tasks ≡ true
  pub expected :
      (q : Task)
      → elem q s.operation_tasks ≡ true
      → (elem q s.running || elem q (ended_tasks s)) ≡ true
  pub apart : (q : Task) → elem q (ended_tasks s) ≡ true → elem q s.running ≡ false

initial-IsExclusive : IsExclusive initial
initial-IsExclusive = record {
  counted = refl;
  waited = λ q h. absurd (ground arith);
  expected = λ q h. absurd (ground arith);
  apart = λ q h. absurd (ground arith);
}

start-IsExclusive :
    (task : Task) (s : Operations)
    → elem task (ended_tasks s) ≡ false
    → IsExclusive s
    → IsExclusive (start_exclusive_operation (some task) s).1
unfolding start_exclusive_operation
start-IsExclusive task s new inv =
    let started : Operations = record s {
      locked = true;
      operation_tasks = task ∷ s.operation_tasks;
      running = task ∷ s.running;
    } in
    let after : Bool → Option Task × Operations =
      λ b. if b then (none, s) else (some task, started) in
    elim (Bool-cases s.locked) [
      | inl held ↦ subst (λ b. IsExclusive (after b).1) (sym held) inv
      | inr free ↦
          subst (λ b. IsExclusive (after b).1) (sym free)
            (record {
              counted = omega (arith, inv.counted, ap {B = ℕ} (λ b. if b then 1 else 0) free);
              waited = λ q h. ground (arith, inv.waited q);
              expected = λ q h. ground (arith, inv.expected q);
              apart = λ q h. ground (arith, inv.apart q, ==_iff q task);
            })
    ]

discard-eq-nil :
    (task : Task) (tasks : List Task)
    → length tasks ≤ 1
    → elem task tasks ≡ true
    → discard task tasks ≡ []
unfolding discard
discard-eq-nil task [] one runs = refl
discard-eq-nil task (t ∷ []) one runs = ground (arith, ==_iff task t, ==_iff t task)
discard-eq-nil task (t ∷ u ∷ tasks) one runs = absurd (omega (arith, one))

pub at_most_one : (s : Operations) → IsExclusive s → length s.running ≤ 1
at_most_one s inv = elim (Bool-cases s.locked) [
  | inl held ↦ omega (arith, inv.counted, ap {B = ℕ} (λ b. if b then 1 else 0) held)
  | inr free ↦ omega (arith, inv.counted, ap {B = ℕ} (λ b. if b then 1 else 0) free)
]

pub finish-nil :
    (task : Task) (raised : Bool) (s : Operations)
    → length s.running ≤ 1
    → elem task s.running ≡ true
    → (finish task raised s).running ≡ []
unfolding finish
finish-nil task raised s one runs = discard-eq-nil task s.running one runs

finish-IsExclusive :
    (task : Task) (raised : Bool) (s : Operations)
    → elem task s.running ≡ true
    → IsExclusive s
    → IsExclusive (finish task raised s)
unfolding finish
finish-IsExclusive task raised s runs inv =
    let ends : (q : Task)
        → elem q (map (λ (e : Task × Bool). e.0) (s.ended ++ (task, raised) ∷ []))
          ≡ (elem q (ended_tasks s) || elem q (task ∷ [])) =
      λ q.
        ap (elem q) (map-append (λ (e : Task × Bool). e.0) s.ended ((task, raised) ∷ []))
        ∙ elem-append q (ended_tasks s) (task ∷ []) in
    record {
      counted = ap length (discard-eq-nil task s.running (at_most_one s inv) runs);
      waited = λ q h. ground (arith, elem-discard q task s.running, inv.waited q);
      expected = λ q h. ground (arith, ends q, elem-discard q task s.running, inv.expected q);
      apart =
          λ q h. ground (arith, ends q, elem-discard q task s.running, inv.apart q, ==_iff q task);
    }

-- A task whose callback comes is not running.
operation_done-IsExclusive :
    (task : Task) (raised : Bool) (rest : List (Task × Bool)) (s : Operations)
    → s.ended ≡ (task, raised) ∷ rest
    → IsExclusive s
    → IsExclusive (operation_done task raised rest s)
unfolding operation_done log_detached_failure
operation_done-IsExclusive task raised rest s queue inv =
    let ends : (q : Task)
        → elem q (ended_tasks s) ≡ (q == task || elem q (map (λ (e : Task × Bool). e.0) rest)) =
      λ q. ap (λ xs. elem q (map (λ (e : Task × Bool). e.0) xs)) queue in
    let tasks = discard task s.operation_tasks in
    let exclusive : (detached failures : List Task)
        → IsExclusive (record {
          locked = s.locked;
          operation_tasks = tasks;
          detached_tasks = detached;
          running = s.running;
          ended = rest;
          failures = failures;
        }) =
      λ detached failures. record {
        counted = inv.counted;
        waited = λ q h.
            ground
              (arith, elem-discard q task s.operation_tasks, inv.waited q, inv.apart q, ends q);
        expected =
            λ q h. ground (arith, elem-discard q task s.operation_tasks, inv.expected q, ends q);
        apart = λ q h. ground (arith, inv.apart q, ends q);
      } in
    on_branches IsExclusive (elem task s.detached_tasks)
      (on_branches IsExclusive raised (exclusive _ _) (exclusive _ _)) (exclusive _ _)

detach_operation-IsExclusive :
    (task : Task) (raised : Bool) (s : Operations)
    → IsExclusive s
    → IsExclusive (detach_operation task raised s)
unfolding detach_operation log_detached_failure
detach_operation-IsExclusive task raised s inv =
    let exclusive : (detached failures : List Task)
        → IsExclusive (record s { detached_tasks = detached; failures = failures }) =
      λ detached failures. record {
        counted = inv.counted;
        waited = inv.waited;
        expected = inv.expected;
        apart = inv.apart;
      } in
    on_branches IsExclusive (elem task s.running) (exclusive _ _)
      (on_branches IsExclusive raised (exclusive _ _) inv)

pub Progress-IsExclusive : {s t : Operations} → Progress s t → IsExclusive s → IsExclusive t
Progress-IsExclusive (task_ends {s = s} task raised runs) inv =
    finish-IsExclusive task raised s runs inv
Progress-IsExclusive (callback {s = s} task raised rest queue) inv =
    operation_done-IsExclusive task raised rest s queue inv

Step-IsExclusive : {s t : Operations} → Step s t → IsExclusive s → IsExclusive t
Step-IsExclusive (progress p) inv = Progress-IsExclusive p inv
Step-IsExclusive (request {s = s} task new) inv = start-IsExclusive task s new inv
Step-IsExclusive (cancelled {s = s} task raised) inv =
    detach_operation-IsExclusive task raised s inv

-- In every state that is reached, the lock is held exactly while one task runs, which is waited for, and
-- no other does; a task that is waited for runs or has its callback to come.
pub Reachable-IsExclusive : {s : Operations} → Reachable s → IsExclusive s
Reachable-IsExclusive at_start = initial-IsExclusive
Reachable-IsExclusive (after reached step) = Step-IsExclusive step (Reachable-IsExclusive reached)
