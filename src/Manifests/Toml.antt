-- ===== src/Manifests/Toml.antt =====
-- The Python values that `tomllib.loads` returns, and what
-- compute_space/src/compute_space/core/manifest.py asks of them: `get`, `isinstance`, truth.
use cloud_in_a_bottle.Shared.{
  Bool, List, List_eq, Option, Result, Text, [], false, if◌then◌else◌, map, none, not, ok, raise,
  some, true, when_set, zero, ℕ, ℕ_eq, ◌==◌, ◌>>=◌, ◌∷◌,
}

-- A Python integer: `negsuc n` is -(n + 1).
pub data ℤ : Type 0 where
  pos : ℕ → ℤ
  negsuc : ℕ → ℤ

-- A Python float: a mantissa and a power of two, or neither.
pub data Float : Type 0 where
  finite : ℤ → ℤ → Float
  infinite : Bool → Float
  not_a_number : Float

mutual
  pub data Toml : Type 0 where
    string : Text → Toml
    integer : ℤ → Toml
    float : Float → Toml
    boolean : Bool → Toml
    date_time : Text → Toml
    array : Tomls → Toml
    table : Fields → Toml

  pub data Tomls : Type 0 where
    end_of_array : Tomls
    item : Toml → Tomls → Tomls

  pub data Fields : Type 0 where
    end_of_table : Fields
    field : Text → Toml → Fields → Fields

pub data ManifestError : Type 0 where
  -- `ValueError`, by what the message says.
  not_a_table : ManifestError
  not_a_list : ManifestError
  missing_label : ManifestError
  duplicate_label : ManifestError
  bad_container_port : ManifestError
  duplicate_container_port : ManifestError
  bad_host_port : ManifestError
  privileged_host_port : ManifestError
  duplicate_host_port : ManifestError
  missing_name : ManifestError
  missing_path : ManifestError
  not_a_string : ManifestError
  device_not_allowed : ManifestError
  capability_not_safe : ManifestError
  missing_field : ManifestError
  grants_not_a_list : ManifestError
  bad_grant : ManifestError
  bad_shortname : ManifestError
  duplicate_shortname : ManifestError
  bad_specifier : ManifestError
  bad_provides : ManifestError
  bad_version : ManifestError
  missing_app_name : ManifestError
  missing_app_version : ManifestError
  bad_runtime_type : ManifestError
  missing_image : ManifestError
  missing_port : ManifestError
  bad_shm_mb : ManifestError
  invalid_toml : ManifestError
  bad_number : ManifestError
  -- `AttributeError` and `TypeError`, of a value of another type than the code expects.
  no_attribute : ManifestError
  wrong_type : ManifestError

unfoldable pub lookup : Text → Fields → Option Toml
lookup key end_of_table = none
lookup key (field name value fields) = if name == key then some value else lookup key fields

unfoldable pub items : Tomls → List Toml
items end_of_array = []
items (item value values) = value ∷ items values

unfoldable pub keys : Fields → List Toml
keys end_of_table = []
keys (field name value fields) = string name ∷ keys fields

-- `isinstance(value, dict)`, `isinstance(value, list)`, `isinstance(value, str)`.
unfoldable pub as_table : Toml → Option Fields
as_table (table fields) = some fields
as_table _ = none

unfoldable pub as_list : Toml → Option (List Toml)
as_list (array values) = some (items values)
as_list _ = none

unfoldable pub as_string : Toml → Option Text
as_string (string s) = some s
as_string _ = none

-- `isinstance(value, int)`: a Boolean is one too.
unfoldable pub as_int : Toml → Option ℤ
as_int (integer n) = some n
as_int (boolean true) = some (pos 1)
as_int (boolean false) = some (pos 0)
as_int _ = none

-- `isinstance(value, int)` and `value >= 0`.
unfoldable pub natural : ℤ → Option ℕ
natural (pos n) = some n
natural (negsuc n) = none

unfoldable pub as_natural : Toml → Option ℕ
as_natural value = when_set (as_int value) natural

-- Whether Python takes the value for true.
unfoldable pub is_zero : ℤ → Bool
is_zero (pos zero) = true
is_zero _ = false

unfoldable pub truth : Toml → Bool
truth (string []) = false
truth (integer n) = not (is_zero n)
truth (float (finite mantissa exponent)) = not (is_zero mantissa)
truth (boolean b) = b
truth (array end_of_array) = false
truth (table end_of_table) = false
truth _ = true

-- `value.get(key)` of a value that should be a table, and `value.get(key, default)`.
unfoldable pub get : Text → Toml → Result ManifestError (Option Toml)
get key (table fields) = ok (lookup key fields)
get key _ = raise no_attribute

unfoldable pub or_default : Toml → Option Toml → Toml
or_default default none = default
or_default default (some value) = value

unfoldable pub get_or : Text → Toml → Toml → Result ManifestError Toml
get_or key default value = get key value >>= (λ found. ok (or_default default found))

-- `for entry in value`
unfoldable pub iterate : Toml → Result ManifestError (List Toml)
iterate (string s) = ok (map (λ c. string (c ∷ [])) s)
iterate (array values) = ok (items values)
iterate (table fields) = ok (keys fields)
iterate _ = raise wrong_type

-- A key of a table whose value is a text with something in it: `not value or not isinstance(value, str)`
-- refuses the others.
unfoldable pub non_empty_text : Text → Option Text
non_empty_text [] = none
non_empty_text (c ∷ s) = some (c ∷ s)

unfoldable pub text_field : Text → Fields → Option Text
text_field key fields =
    when_set (lookup key fields) (λ value. when_set (as_string value) non_empty_text)
