-- ===== src/Guards/Storage.antt =====
-- The storage guard of compute_space/src/compute_space/core/storage.py. The free space of the disk, and what
-- stopping a process does to it, are the host's.

pub mod Enforced
use cloud_in_a_bottle.Shared.{
  Bool, List, Option, Result, String, String_eq, Text, [], codes, false, filter, if◌then◌else◌,
  is_some, ltb, map, none, not, ok, raise, some, suc, true, when_set, zero, ℕ, ℕ_eq, ◌*◌, ◌==◌,
  ◌||◌, ◌∷◌,
}
use cloud_in_a_bottle.Schema.{App, AppStatus, removing}

-- `storage_min_free_bytes`, of the number of MiB that is configured: 0 or less is no limit.
unfoldable pub storage_min_free_bytes : ℕ → Option ℕ
storage_min_free_bytes zero = none
storage_min_free_bytes (suc limit) = some (suc limit * 1048576)

-- The free space and the limit, if it is below the limit.
unfoldable pub check_min_free : ℕ → ℕ → Option (ℕ × ℕ)
check_min_free limit free =
    when_set (storage_min_free_bytes limit)
      (λ min_free. if ltb free min_free then some (free, min_free) else none)

unfoldable pub storage_low : ℕ → ℕ → Bool
storage_low limit free = is_some (check_min_free limit free)

pub data StorageError : Type 0 where
  storage_too_low : ℕ → ℕ → StorageError

unfoldable pub refuse_deploy : Option (ℕ × ℕ) → Result StorageError (Unit {0})
refuse_deploy none = ok tt
refuse_deploy (some (free, min_free)) = raise (storage_too_low free min_free)

unfoldable pub check_before_deploy : ℕ → ℕ → Result StorageError (Unit {0})
check_before_deploy limit free = refuse_deploy (check_min_free limit free)

-- `status IN ('running', 'starting')`
unfoldable pub may_run : AppStatus → Bool
may_run AppStatus.running = true
may_run AppStatus.starting = true
may_run _ = false

abbrev pub low_storage_detail : Text
low_storage_detail = codes "Storage too low. Free space by removing app data or resizing disks."

unfoldable pub stopped_row : String → App → App
stopped_row app_id a =
    if a.app_id == app_id
    then record a {
      status = AppStatus.error;
      error_message = some low_storage_detail;
      container_id = none;
    }
    else a

unfoldable pub stop_rows : List App → List App → List App
stop_rows [] apps = apps
stop_rows (row ∷ rows) apps = stop_rows rows (map (stopped_row row.app_id) apps)

-- The apps whose process is told to stop, in order, and the table. A stop that fails is logged and passed
-- over, and the row is written all the same.
unfoldable pub enforce_storage_guard : ℕ → ℕ → Bool → List App → List App × List App
enforce_storage_guard limit free paused apps =
    if not (storage_low limit free) || paused
    then ([], apps)
    else (let rows = filter (λ a. may_run a.status) apps in (rows, stop_rows rows apps))
