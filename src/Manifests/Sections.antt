-- ===== src/Manifests/Sections.antt =====
-- The sections of a manifest, of compute_space/src/compute_space/core/manifest.py, and the checks
-- that parse_manifest_from_string does on them first.
use cloud_in_a_bottle.Shared.{
  Bool, List_eq, Result, String_eq, Text, codes, false, if◌then◌else◌, ok, opt_eq, require,
  required, some, true, ℕ, ℕ_eq, ◌>>=◌, ◌>>◌, ◌||◌,
}
use cloud_in_a_bottle.Manifests.Toml.{
  Toml, ManifestError, array, as_natural, as_string, bad_runtime_type, bad_shm_mb, boolean,
  end_of_table, get, get_or, integer, missing_app_name, missing_app_version, missing_image,
  missing_port, or_default, pos, string, table, truth, wrong_type,
}

-- `section.get(key)`, and then whether Python takes it for true.
unfoldable pub truthy : Text → Toml → Result ManifestError Bool
truthy key section = get key section >>= (λ found. ok (truth (or_default (boolean false) found)))

-- A section that is missing is an empty table.
unfoldable pub section_of : Text → Toml → Result ManifestError Toml
section_of key data' = get_or key (table end_of_table) data'

unfoldable pub is_runtime_type : Toml → Bool
is_runtime_type value =
    opt_eq (as_string value) (some (codes "serverless"))
    || opt_eq (as_string value) (some (codes "serverfull"))

-- `value in section`, which is defined on strings, lists and tables.
unfoldable pub is_container : Toml → Bool
is_container (string s) = true
is_container (array values) = true
is_container (table fields) = true
is_container _ = false

-- `a or b`
unfoldable pub either : Toml → Toml → Toml
either a b = if truth a then a else b

-- The checks on [app], [runtime] and [runtime.container].
unfoldable pub checked_container : Toml → Result ManifestError Toml
checked_container data' = do
  app_section ← section_of (codes "app") data'
  named ← truthy (codes "name") app_section
  require named missing_app_name
  versioned ← truthy (codes "version") app_section
  require versioned missing_app_version
  runtime ← section_of (codes "runtime") data'
  runtime_type ← get_or (codes "type") (string (codes "serverfull")) runtime
  require (is_runtime_type runtime_type) bad_runtime_type
  container ← section_of (codes "container") runtime
  image ← truthy (codes "image") container
  require image missing_image
  port ← truthy (codes "port") container
  require port missing_port
  ok container

-- The sections, once the checks that come first have passed.
pub record Sections : Type 0 where
  pub app_section : Toml
  pub runtime_type : Toml
  pub container : Toml
  pub shm_mb : ℕ
  pub routing : Toml
  pub resources : Toml
  pub data_section : Toml

unfoldable pub read_sections : Toml → Result ManifestError Sections
read_sections data' = do
  container ← checked_container data'
  app_section ← section_of (codes "app") data'
  runtime ← section_of (codes "runtime") data'
  runtime_type ← get_or (codes "type") (string (codes "serverfull")) runtime
  shm ← get_or (codes "shm_mb") (integer (pos 0)) container
  shm_mb ← required (as_natural shm) bad_shm_mb
  routing ← section_of (codes "routing") data'
  resources ← section_of (codes "resources") data'
  data_section ← section_of (codes "data") data'
  require (is_container data_section) wrong_type
  ok (record {
    app_section = app_section;
    runtime_type = runtime_type;
    container = container;
    shm_mb = shm_mb;
    routing = routing;
    resources = resources;
    data_section = data_section;
  })
