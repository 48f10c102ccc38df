-- ===== src/Guards/Tests.antt =====
-- The guards at concrete readings, in whole percent, and at a small table of apps.
use cloud_in_a_bottle.Shared.{
  All, List, List_eq, Memᴰ, Option, Order, String, String_eq, Text, [], arith, codes, elem, false,
  filter, ltb, map, none, not, ok, refl, some, true, ℕ, ℕ_eq, ◌&&◌, ◌||◌, ◌∷◌, ◌≡◌,
}
use cloud_in_a_bottle.Schema.{App, AppStatus}
use cloud_in_a_bottle.Guards.Memory.{
  Observation, check_memory_pressure, check_pressure, check_reading, discard_app,
}
use cloud_in_a_bottle.Guards.Memory.Debounced.{
  readings_of, check_pressure-debounced, is_high, rises, warnings_of,
}
use cloud_in_a_bottle.Guards.Storage.{
  may_run, check_before_deploy, check_min_free, enforce_storage_guard, refuse_deploy, storage_low,
  storage_min_free_bytes,
}
use cloud_in_a_bottle.Guards.Storage.Enforced.{enforce_storage_guard-stops}
use cloud_in_a_bottle.Guards.Images.{
  OpenhostImage, positive_or_none, sweep_images, sweep_orphaned_images, sweep_with,
}

ltb_split : (x y z : ℕ) → ltb x z ≡ true → (ltb x y || ltb y z) ≡ true
ltb_split x y z h = ground arith

ltb_asymm : (x y : ℕ) → ltb x y ≡ true → ltb y x ≡ false
ltb_asymm x y h = ground arith

instance abbrev Percent_order : Order ℕ
Percent_order = record { lt = ltb; lt_asymm = ltb_asymm; lt_split = ltb_split }

abbrev reads : Text → Option ℕ → Observation ℕ
reads app_id percent = record { app_id = app_id; memory_percent = percent }

abbrev wiki : Text
wiki = codes "wiki"

abbrev game : Text
game = codes "game"

abbrev day : List (Observation ℕ)
day =
    reads wiki (some 91)
    ∷ reads game (some 95)
    ∷ reads wiki (some 85)
    ∷ reads wiki (some 92)
    ∷ reads game none
    ∷ reads wiki (some 79)
    ∷ reads wiki (some 90)
    ∷ []

pressure_test : check_pressure 90 80 [] day ≡ (wiki ∷ game ∷ [], wiki ∷ game ∷ wiki ∷ [])
unfolding check_pressure check_memory_pressure check_reading discard_app
pressure_test = refl

check_pressure-debounced_example :
    (elem wiki (check_pressure 90 80 [] day).0 ≡ is_high 90 80 false (readings_of wiki day))
    × (warnings_of wiki (check_pressure 90 80 [] day).1 ≡ rises 90 80 false (readings_of wiki day))
check_pressure-debounced_example = check_pressure-debounced 90 80 wiki [] day

abbrev app_with : String → AppStatus → App
app_with app_id status = record {
  app_id = app_id;
  name = wiki;
  local_port = 9000;
  container_id = none;
  status = status;
  error_message = none;
  public_paths = [];
  created_at = 1;
}

abbrev apps : List App
apps =
    app_with "a" AppStatus.running
    ∷ app_with "b" AppStatus.stopped
    ∷ app_with "c" AppStatus.starting
    ∷ []

low_test : storage_low 2 1000 ≡ true
unfolding storage_low check_min_free storage_min_free_bytes
low_test = refl

deploy_test : check_before_deploy 0 0 ≡ ok tt
unfolding check_before_deploy refuse_deploy check_min_free storage_min_free_bytes
deploy_test = refl

enforce_storage_guard-stops_example :
    ((storage_low 2 1000 && not false) ≡ true
      → ((enforce_storage_guard 2 1000 false apps).0 ≡ filter (λ a. may_run a.status) apps)
        × All (λ a. may_run a.status ≡ false) (enforce_storage_guard 2 1000 false apps).1
        × ((a : App)
            → elem a.app_id (map (λ r. r.app_id) (filter (λ b. may_run b.status) apps)) ≡ false
            → Memᴰ a apps
            → Memᴰ a (enforce_storage_guard 2 1000 false apps).1))
    × ((storage_low 2 1000 && not false) ≡ false
        → enforce_storage_guard 2 1000 false apps ≡ ([], apps))
enforce_storage_guard-stops_example = enforce_storage_guard-stops 2 1000 false apps

abbrev images : List OpenhostImage
images =
    record { image_id = codes "i1"; app_name = wiki; created_epoch = 10 }
    ∷ record { image_id = codes "i2"; app_name = game; created_epoch = 10 }
    ∷ record { image_id = codes "i3"; app_name = codes "new"; created_epoch = 95 }
    ∷ []

sweep_test : sweep_orphaned_images (λ id. true) 50 (some (wiki ∷ [])) 100 images ≡ codes "i2" ∷ []
unfolding sweep_orphaned_images positive_or_none sweep_with sweep_images
sweep_test = refl
