-- ===== src/Guards/Memory.antt =====
-- The memory pressure check of compute_space/src/compute_space/core/memory_guard.py. A percentage is a float:
-- all that is asked of it is how it compares with the two thresholds.
pub mod Debounced
use cloud_in_a_bottle.Shared.{
  Bool, List, List_eq, Option, Order, Text, [], elem, false, filter, if◌then◌else◌, none, not, some,
  true, ℕ_eq, ◌&&◌, ◌==◌, ◌∷◌,
}

-- A row of the query, with the percentage that `collect_app_resources` reads for its container, if any.
pub record Observation (P : Type 0) : Type 0 where
  pub app_id : Text
  pub memory_percent : Option P

unfoldable pub discard_app : Text → List Text → List Text
discard_app app_id notified = filter (λ a. not (a == app_id)) notified

module _ {P : Type 0} ⦃by_order : Order P⦄ (warn_percent clear_percent : P) where
  -- `_pressure_notified` after the check, and whether there was a warning.
  unfoldable pub check_reading : List Text → Text → Option P → List Text × Bool
  check_reading notified app_id none = (notified, false)
  check_reading notified app_id (some percent) =
      if by_order.lt percent clear_percent
      then (discard_app app_id notified, false)
      else if not (by_order.lt percent warn_percent) && not (elem app_id notified)
      then (app_id ∷ notified, true)
      else (notified, false)

  unfoldable pub check_memory_pressure : List Text → Observation P → List Text × Bool
  check_memory_pressure notified row = check_reading notified row.app_id row.memory_percent

  -- `_check_pressure_once`, over the rows of one round or of several: the state, and the apps that the
  -- owner was warned of.
  unfoldable pub check_pressure : List Text → List (Observation P) → List Text × List Text
  check_pressure notified [] = (notified, [])
  check_pressure notified (row ∷ rows) =
      let checked = check_memory_pressure notified row in
      let later = check_pressure checked.0 rows in
      (later.0, if checked.1 then row.app_id ∷ later.1 else later.1)
