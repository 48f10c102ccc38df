-- ===== src/Guards/Images.antt =====
-- The sweep of compute_space/src/compute_space/core/image_pruner.py. The images that podman lists, and whether it
-- removes one, are parameters; a time is a number of seconds.
use cloud_in_a_bottle.Shared.{
  Bool, List, List_eq, Option, Text, [], arith, elem, filter, if◌then◌else◌, leb, ltb, map, none,
  not, refl, some, suc, zero, ℕ, ℕ_eq, ◌&&◌, ◌+◌, ◌∷◌, ◌≡◌,
}

-- What `list_openhost_images` says of an image.
pub record OpenhostImage : Type 0 where
  pub image_id : Text
  pub app_name : Text
  pub created_epoch : ℕ

-- `prune_interval_seconds` and `orphan_max_age_seconds`: 0 disables.
unfoldable pub positive_or_none : ℕ → Option ℕ
positive_or_none zero = none
positive_or_none (suc n) = some (suc n)

module _ (remove_image_by_id : Text → Bool) where
  unfoldable pub sweep_images : List Text → ℕ → ℕ → List OpenhostImage → List Text
  sweep_images app_names max_age now [] = []
  sweep_images app_names max_age now (image ∷ images) =
      let later = sweep_images app_names max_age now images in
      if elem image.app_name app_names
      then later
      else if ltb now (image.created_epoch + max_age)
      then later
      else if remove_image_by_id image.image_id
      then image.image_id ∷ later
      else later

  unfoldable pub sweep_with : Option ℕ → Option (List Text) → ℕ → List OpenhostImage → List Text
  sweep_with none app_names now images = []
  sweep_with (some max_age) none now images = []
  sweep_with (some max_age) (some names) now images = sweep_images names max_age now images

  -- The ids of the images that are removed; none where the names of the apps cannot be read.
  unfoldable pub sweep_orphaned_images : ℕ → Option (List Text) → ℕ → List OpenhostImage → List Text
  sweep_orphaned_images configured app_names now images =
      sweep_with (positive_or_none configured) app_names now images

  -- An image of no app that is there, and old enough to be no image of an app that is being installed.
  abbrev pub is_orphan : List Text → ℕ → ℕ → OpenhostImage → Bool
  is_orphan app_names max_age now image =
      not (elem image.app_name app_names) && leb (image.created_epoch + max_age) now

  -- With an age that is not 0 and the names of the apps, the images that are removed are the orphans of
  -- at least that age that podman removes, in the order of its list.
  pub sweep_orphaned_images-filter :
      (age : ℕ) (app_names : List Text) (now : ℕ) (images : List OpenhostImage)
      → sweep_orphaned_images (suc age) (some app_names) now images
        ≡ filter remove_image_by_id
            (map (λ image. image.image_id) (filter (is_orphan app_names (suc age) now) images))
  unfolding sweep_orphaned_images positive_or_none sweep_with sweep_images
  sweep_orphaned_images-filter age app_names now [] = refl
  sweep_orphaned_images-filter age app_names now (image ∷ images) =
      ground (arith, sweep_orphaned_images-filter age app_names now images)
