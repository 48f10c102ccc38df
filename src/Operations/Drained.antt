-- ===== src/Operations/Drained.antt =====
-- wait_for_operations of compute_space/src/compute_space/core/operation_locks.py: the tasks come to an end.
use cloud_in_a_bottle.Shared.{
  ==_refl, Bool, Bool-cases, List, [], ap, arith, elem, false, if◌then◌else◌, inl, inr, length, map,
  on_branches, refl, some, true, ℕ, ℕ_eq, ◌∙◌, ◌∷◌, ◌≡◌,
}
use cloud_in_a_bottle.Operations.{
  Task, Operations, drained, Drains, callback, next_step, operation_done, Reachable, finish,
  log_detached_failure, start_exclusive_operation, task_ends,
}
use cloud_in_a_bottle.Operations.Exclusive.{
  IsExclusive, Progress-IsExclusive, Reachable-IsExclusive, at_most_one, finish-nil,
}

-- Nothing runs, nothing is waited for, and the lock is free.
pub record IsIdle (s : Operations) : Type 0 where
  pub free : s.locked ≡ false
  pub nothing_runs : s.running ≡ []
  pub nothing_waited : s.operation_tasks ≡ []

nil_of_none : (tasks : List Task) → ((q : Task) → elem q tasks ≡ true → false ≡ true) → tasks ≡ []
nil_of_none [] none_in = refl
nil_of_none (t ∷ tasks) none_in = absurd (ground (arith, none_in t, ==_refl t))

unlocked_of_idle : (s : Operations) → IsExclusive s → s.running ≡ [] → s.locked ≡ false
unlocked_of_idle s inv idle = elim (Bool-cases s.locked) [
  | inr free ↦ free
  | inl held ↦
      absurd (omega (arith, inv.counted, ap length idle, ap {B = ℕ} (λ b. if b then 1 else 0) held))
]

operation_done-rest :
    (task : Task) (raised : Bool) (rest : List (Task × Bool)) (s : Operations)
    → ((operation_done task raised rest s).ended ≡ rest)
      × ((operation_done task raised rest s).running ≡ s.running)
unfolding operation_done log_detached_failure
operation_done-rest task raised rest s =
    let Same : Operations → Type 0 = λ t. (t.ended ≡ rest) × (t.running ≡ s.running) in
    on_branches Same (elem task s.detached_tasks)
      (on_branches Same raised (refl, refl) (refl, refl)) (refl, refl)

-- The callbacks that are queued are called one after the other.
drain_callbacks :
    (queue : List (Task × Bool)) (s : Operations)
    → s.ended ≡ queue
    → s.running ≡ []
    → IsExclusive s
    → (t : Operations) × Drains s t × IsIdle t
drain_callbacks [] s ended idle inv = (
  s,
  drained,
  record {
    free = unlocked_of_idle s inv idle;
    nothing_runs = idle;
    nothing_waited = nil_of_none s.operation_tasks (λ q h. ground (
      arith,
      inv.expected q h,
      ap (elem q) idle,
      ap (λ xs. elem q (map (λ (e : Task × Bool). e.0) xs)) ended,
    ));
  },
)
drain_callbacks ((task, raised) ∷ rest) s ended idle inv =
    let next = operation_done task raised rest s in
    let (queue, runs) = operation_done-rest task raised rest s in
    let (t, drains, is_idle) =
      drain_callbacks rest next queue (runs ∙ idle)
        (Progress-IsExclusive (callback task raised rest ended) inv) in
    (t, next_step (callback task raised rest ended) drains, is_idle)

drain_running :
    (tasks : List Task) (s : Operations)
    → s.running ≡ tasks
    → IsExclusive s
    → (t : Operations) × Drains s t × IsIdle t
drain_running [] s running inv = drain_callbacks s.ended s refl running inv
drain_running (task ∷ tasks) s running inv =
    let runs : elem task s.running ≡ true = ap (elem task) running ∙ ground (arith, ==_refl task) in
    let next = finish task false s in
    let (t, drains, is_idle) =
      drain_callbacks next.ended next refl (finish-nil task false s (at_most_one s inv) runs)
        (Progress-IsExclusive (task_ends task false runs) inv) in
    (t, next_step (task_ends task false runs) drains, is_idle)

start-idle :
    (task : Task) (s : Operations)
    → IsIdle s
    → (start_exclusive_operation (some task) s).0 ≡ some task
unfolding start_exclusive_operation
start-idle task s idle = rw idle.free refl

-- From every state that is reached, the tasks that run and the callbacks that are queued lead to a state
-- in which nothing is waited for and the lock is free, so that the next operation is started at once.
pub Reachable-Drains :
    {s : Operations}
    → Reachable s
    → (t : Operations) × Drains s t
      × IsIdle t
      × ((task : Task) → (start_exclusive_operation (some task) t).0 ≡ some task)
Reachable-Drains {s = s} reached =
    let (t, drains, idle) = drain_running s.running s refl (Reachable-IsExclusive reached) in
    (t, drains, idle, λ task. start-idle task t idle)
