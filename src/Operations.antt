-- ===== src/Operations.antt =====
-- compute_space/src/compute_space/core/operation_locks.py: one exclusive operation at a time, which outlives the
-- request that started it. A task is its number; the event loop runs one step of a task at a time.
pub mod Exclusive
pub mod Drained
mod Tests
use cloud_in_a_bottle.Shared.{
  Bool, List, Option, [], elem, false, filter, if◌then◌else◌, map, none, not, some, true, ℕ, ℕ_eq,
  ◌++◌, ◌==◌, ◌∷◌, ◌≡◌,
}

abbrev pub Task : Type 0
Task = ℕ

pub record Operations : Type 0 where
  pub locked : Bool
  pub operation_tasks : List Task
  pub detached_tasks : List Task
  -- The event loop: tasks whose coroutine has not ended, those that have with whether they raised and
  -- whose callback is still to come, and the failures that were logged.
  pub running : List Task
  pub ended : List (Task × Bool)
  pub failures : List Task

unfoldable pub discard : Task → List Task → List Task
discard task tasks = filter (λ t. not (t == task)) tasks

abbrev pub ended_tasks : Operations → List Task
ended_tasks s = map (λ (e : Task × Bool). e.0) s.ended

-- `start_exclusive_operation`, with the task that would be made, or none where making it raises: then
-- the lock is released again.
unfoldable pub start_exclusive_operation : Option Task → Operations → Option Task × Operations
start_exclusive_operation none s = (none, s)
start_exclusive_operation (some task) s = if s.locked then (none, s) else (
  some task,
  record s {
    locked = true;
    operation_tasks = task ∷ s.operation_tasks;
    running = task ∷ s.running;
  },
)

-- The end of `run_as_owner`: the lock is released whether the operation raised or not.
unfoldable pub finish : Task → Bool → Operations → Operations
finish task raised s = record s {
  locked = false;
  running = discard task s.running;
  ended = s.ended ++ (task, raised) ∷ [];
}

unfoldable pub log_detached_failure : Task → Bool → Operations → Operations
log_detached_failure task raised s = if raised then record s { failures = task ∷ s.failures } else s

-- The callback of a task that has ended, which is first in the queue.
unfoldable pub operation_done : Task → Bool → List (Task × Bool) → Operations → Operations
operation_done task raised rest s =
    let after = record s { operation_tasks = discard task s.operation_tasks; ended = rest } in
    if elem task s.detached_tasks
    then log_detached_failure task raised
        (record after { detached_tasks = discard task s.detached_tasks })
    else after

-- `detach_operation`, with whether the task raised if it is done.
unfoldable pub detach_operation : Task → Bool → Operations → Operations
detach_operation task raised s =
    if elem task s.running
    then record s { detached_tasks = task ∷ s.detached_tasks }
    else log_detached_failure task raised s

abbrev pub initial : Operations
initial = record {
  locked = false;
  operation_tasks = [];
  detached_tasks = [];
  running = [];
  ended = [];
  failures = [];
}

-- What the event loop does by itself: a task ends, or the callback of one that has ended is called.
pub data Progress : Operations → Operations → Type 0 where
  task_ends :
      {s : Operations} (task : Task) (raised : Bool)
      → elem task s.running ≡ true
      → Progress s (finish task raised s)
  callback :
      {s : Operations} (task : Task) (raised : Bool) (rest : List (Task × Bool))
      → s.ended ≡ (task, raised) ∷ rest
      → Progress s (operation_done task raised rest s)

-- Progress, or a request that starts an operation or stops waiting for one. A new task is not one that
-- waits for its callback.
pub data Step : Operations → Operations → Type 0 where
  progress : {s t : Operations} → Progress s t → Step s t
  request :
      {s : Operations} (task : Task)
      → elem task (ended_tasks s) ≡ false
      → Step s (start_exclusive_operation (some task) s).1
  cancelled :
      {s : Operations} (task : Task) (raised : Bool) → Step s (detach_operation task raised s)

pub data Reachable : Operations → Type 0 where
  at_start : Reachable initial
  after : {s t : Operations} → Reachable s → Step s t → Reachable t

-- `wait_for_operations` returns once no task is left.
pub data Drains : Operations → Operations → Type 0 where
  drained : {s : Operations} → Drains s s
  next_step : {s t u : Operations} → Progress s t → Drains t u → Drains s u
