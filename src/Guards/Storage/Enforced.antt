-- ===== src/Guards/Storage/Enforced.antt =====
-- What the storage guard of compute_space/src/compute_space/core/storage.py leaves running.
use mathlib.Core.Path.{subst}
use cloud_in_a_bottle.Shared.{
  All, All-map, All-of_map, All-of_mem, Bool, Bool-cases, List, Memᴰ, String_eq, [], arith, elem,
  elem_of_mem, false, filter, filter_of_mem, inl, inr, map, mem-map, not, not_true, refl, true, ℕ,
  ℕ_eq, ◌&&◌, ◌==◌, ◌||◌, ◌∷◌, ◌≡◌,
}
use cloud_in_a_bottle.Guards.Storage.{
  may_run, stopped_row, enforce_storage_guard, stop_rows, storage_low,
}
use cloud_in_a_bottle.Schema.{App}

-- An app that may run is one of those that are still to be stopped.
abbrev IsPending : List App → App → Type 0
IsPending rows a = may_run a.status ≡ true → elem a.app_id (map (λ r. r.app_id) rows) ≡ true

stopped_row-IsPending :
    (row : App) (rows : List App) (a : App)
    → IsPending (row ∷ rows) a
    → IsPending rows (stopped_row row.app_id a)
unfolding stopped_row may_run
stopped_row-IsPending row rows a pending = elim (Bool-cases (a.app_id == row.app_id)) [
  | inl own ↦ rw own (λ runs. absurd (ground arith))
  | inr apart ↦ rw apart (λ runs. ground (arith, pending runs))
]

stop_rows-IsPending :
    (rows apps : List App)
    → All (IsPending rows) apps
    → All (λ a. may_run a.status ≡ false) (stop_rows rows apps)
unfolding stop_rows
stop_rows-IsPending [] apps pending =
    All-map (λ a none_left. not_true (may_run a.status) (λ runs. ground (arith, none_left runs)))
      apps pending
stop_rows-IsPending (row ∷ rows) apps pending =
    stop_rows-IsPending rows (map (stopped_row row.app_id) apps) (
      All-of_map (IsPending rows) (stopped_row row.app_id) apps
        (All-map (stopped_row-IsPending row rows) apps pending))

-- An app whose id is none of these keeps its row.
stop_rows-others :
    (rows apps : List App) (a : App)
    → elem a.app_id (map (λ r. r.app_id) rows) ≡ false
    → Memᴰ a apps
    → Memᴰ a (stop_rows rows apps)
unfolding stop_rows stopped_row
stop_rows-others [] apps a apart m = m
stop_rows-others (row ∷ rows) apps a apart m =
    let here : (a.app_id == row.app_id) ≡ false = ground arith in
    let kept : stopped_row row.app_id a ≡ a = rw here refl in
    stop_rows-others rows (map (stopped_row row.app_id) apps) a (ground arith) (
      subst (λ b. Memᴰ b (map (stopped_row row.app_id) apps)) kept
        (mem-map (stopped_row row.app_id) apps a m))

filter-IsPending : (apps : List App) → All (IsPending (filter (λ a. may_run a.status) apps)) apps
filter-IsPending apps = All-of_mem _ apps (λ a m runs.
    elem_of_mem a.app_id (map (λ r. r.app_id) (filter (λ a. may_run a.status) apps))
      (mem-map (λ r. r.app_id) _ a (filter_of_mem (λ a. may_run a.status) apps a m runs)))

-- With less free space than the limit, and the guard not paused, every app that runs or starts is
-- told to stop, no row is left that says that it does, and the row of an app with another id than theirs stays as it is. A
-- paused guard, or enough space, changes nothing.
pub enforce_storage_guard-stops :
    (limit free : ℕ) (paused : Bool) (apps : List App)
    → ((storage_low limit free && not paused) ≡ true
        → ((enforce_storage_guard limit free paused apps).0 ≡ filter (λ a. may_run a.status) apps)
          × All (λ a. may_run a.status ≡ false) (enforce_storage_guard limit free paused apps).1
          × ((a : App)
              → elem a.app_id (map (λ r. r.app_id) (filter (λ b. may_run b.status) apps)) ≡ false
              → Memᴰ a apps
              → Memᴰ a (enforce_storage_guard limit free paused apps).1))
      × ((storage_low limit free && not paused) ≡ false
          → enforce_storage_guard limit free paused apps ≡ ([], apps))
unfolding enforce_storage_guard
enforce_storage_guard-stops limit free paused apps = (
  λ acts.
      (let enforced : (not (storage_low limit free) || paused) ≡ false = ground arith in
        rw enforced (
          refl,
          stop_rows-IsPending (filter (λ a. may_run a.status) apps) apps (filter-IsPending apps),
          λ a apart m. stop_rows-others (filter (λ b. may_run b.status) apps) apps a apart m,
        )),
  λ rests.
      (let skipped : (not (storage_low limit free) || paused) ≡ true = ground arith in
        rw skipped refl),
)
