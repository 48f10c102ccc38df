-- ===== src/Operations/Tests.antt =====
-- Two requests and a cancelled one, and the properties of the lock there.
use cloud_in_a_bottle.Shared.{[], false, none, refl, some, true, ℕ_eq, ◌∷◌, ◌≡◌}
use cloud_in_a_bottle.Operations.{
  Task, Operations, at_start, start_exclusive_operation, Drains, Reachable, after, cancelled,
  detach_operation, discard, finish, log_detached_failure, operation_done, request,
}
use cloud_in_a_bottle.Operations.Exclusive.{IsExclusive, Reachable-IsExclusive}
use cloud_in_a_bottle.Operations.Drained.{IsIdle, Reachable-Drains}

abbrev one_running : Operations
one_running = record {
  locked = true;
  operation_tasks = 1 ∷ [];
  detached_tasks = [];
  running = 1 ∷ [];
  ended = [];
  failures = [];
}

abbrev detached : Operations
detached = record one_running { detached_tasks = 1 ∷ [] }

busy_test : (start_exclusive_operation (some 2) one_running).0 ≡ none
unfolding start_exclusive_operation
busy_test = refl

failure_test : (operation_done 1 true [] (finish 1 true detached)).failures ≡ 1 ∷ []
unfolding operation_done finish log_detached_failure discard
failure_test = refl

detached-Reachable : Reachable detached
unfolding start_exclusive_operation detach_operation
detached-Reachable = after (after at_start (request 1 refl)) (cancelled 1 false)

Reachable-IsExclusive_example : IsExclusive detached
Reachable-IsExclusive_example = Reachable-IsExclusive detached-Reachable

Reachable-Drains_example :
    (t : Operations) × Drains detached t
    × IsIdle t
    × ((task : Task) → (start_exclusive_operation (some task) t).0 ≡ some task)
Reachable-Drains_example = Reachable-Drains detached-Reachable
