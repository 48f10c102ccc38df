-- ===== src/Manifests/Services.antt =====
-- The services that a manifest provides and consumes: _parse_services_v2 and _parse_services_v2_consumes of
-- compute_space/src/compute_space/core/manifest.py. `cattrs.structure` of a list of strings and tables, and
-- the library packaging, are parameters.
pub mod Consumed
use cloud_in_a_bottle.Shared.{
  Bool, List, List_eq, Option, Result, String_eq, Text, [], codes, elem, false, if◌then◌else◌,
  is_some, leb, not, ok, raise, remove_prefix, require, required, suc, true, zero, ℕ, ℕ_eq, ◌&&◌,
  ◌==◌, ◌>>=◌, ◌>>◌, ◌||◌, ◌∷◌,
}
use cloud_in_a_bottle.Manifests.Toml.{
  Toml, ManifestError, array, as_list, as_string, as_table, bad_grant, bad_provides, bad_shortname,
  bad_specifier, bad_version, duplicate_shortname, end_of_array, end_of_table, get_or,
  grants_not_a_list, iterate, lookup, missing_field, no_attribute, not_a_table, or_default, string,
  table, wrong_type,
}
use cloud_in_a_bottle.Manifests.Container.{AppLink, each}
use cloud_in_a_bottle.Services.{Packaging, provides}

-- `url.rstrip("/")`
unfoldable pub rstrip_slashes : Text → Text
rstrip_slashes [] = []
rstrip_slashes (c ∷ s) =
    let rest = rstrip_slashes s in
    elim rest [ [] ↦ if c == b'/' then [] else c ∷ [] | d ∷ ds ↦ c ∷ d ∷ ds ]

unfoldable pub normalize_service_url : Text → Text
normalize_service_url url =
    rstrip_slashes (remove_prefix (codes "http://") (remove_prefix (codes "https://") url))

pub record ServiceProvides : Type 0 where
  pub service : Text
  pub version : Text
  pub endpoint : Text

pub record ServiceConsumes : Type 0 where
  pub service : Text
  pub shortname : Text
  pub version : Text
  pub grants : List Toml

-- `^[a-z][a-z0-9_-]{0,31}$` with `re.match`: `$` also stands before a line feed at the end.
abbrev pub is_lower : ℕ → Bool
is_lower c = leb b'a' c && leb c b'z'

abbrev pub is_shortname_char : ℕ → Bool
is_shortname_char c = is_lower c || (leb b'0' c && leb c b'9') || (c == b'_') || (c == b'-')

unfoldable pub at_end_of_line : Text → Bool
at_end_of_line [] = true
at_end_of_line (c ∷ []) = c == b'\n'
at_end_of_line (c ∷ d ∷ s) = false

-- So many more characters of the class, and the end.
unfoldable pub shortname_rest : ℕ → Text → Bool
shortname_rest zero s = at_end_of_line s
shortname_rest (suc n) [] = true
shortname_rest (suc n) (c ∷ s) =
    (is_shortname_char c && shortname_rest n s) || at_end_of_line (c ∷ s)

unfoldable pub matches_shortname : Text → Bool
matches_shortname [] = false
matches_shortname (c ∷ s) = is_lower c && shortname_rest 31 s

-- A grant is a string, a table or an array.
unfoldable pub is_grant : Toml → Bool
is_grant (string s) = true
is_grant (table fields) = true
is_grant (array values) = true
is_grant _ = false

unfoldable pub parse_grant : Toml → Result ManifestError Toml
parse_grant g = require (is_grant g) bad_grant >> ok g

-- `data.get("services", {}).get("v2", {}).get(kind, [])`
unfoldable pub services_v2 : Text → Toml → Result ManifestError Toml
services_v2 kind data' = do
  services ← get_or (codes "services") (table end_of_table) data'
  v2 ← get_or (codes "v2") (table end_of_table) services
  get_or kind (array end_of_array) v2

module _ (packaging : Packaging) where
  -- The converter of `service`, the pattern and the specifier set are given a string: another value has
  -- no `removeprefix` and is no text to match.
  unfoldable pub check_consumed :
      List Text → Toml → Toml → Toml → List Toml → Result ManifestError ServiceConsumes
  check_consumed seen service shortname version grants = do
    url ← required (as_string service) no_attribute
    name ← required (as_string shortname) wrong_type
    require (matches_shortname name) bad_shortname
    require (not (elem name seen)) duplicate_shortname
    specifier ← required (as_string version) wrong_type
    require (is_some (packaging.parse_specifier specifier)) bad_specifier
    ok (record {
      service = normalize_service_url url;
      shortname = name;
      version = specifier;
      grants = grants;
    })

  unfoldable pub parse_consumed : List Text → Toml → Result ManifestError ServiceConsumes
  parse_consumed seen entry = do
    fields ← required (as_table entry) not_a_table
    service ← required (lookup (codes "service") fields) missing_field
    shortname ← required (lookup (codes "shortname") fields) missing_field
    version ← required (lookup (codes "version") fields) missing_field
    raw ←
        required (as_list (or_default (array end_of_array) (lookup (codes "grants") fields)))
          grants_not_a_list
    grants ← each parse_grant raw
    check_consumed seen service shortname version grants

  unfoldable pub parse_consumed_from :
      List Text → List Toml → Result ManifestError (List ServiceConsumes)
  parse_consumed_from seen [] = ok []
  parse_consumed_from seen (entry ∷ entries) = do
    p ← parse_consumed seen entry
    later ← parse_consumed_from (p.shortname ∷ seen) entries
    ok (p ∷ later)

  unfoldable pub parse_services_v2_consumes : Toml → Result ManifestError (List ServiceConsumes)
  parse_services_v2_consumes data' = do
    raw ← services_v2 (codes "consumes") data'
    entries ← iterate raw
    parse_consumed_from [] entries

  module _ (structure : Toml → Option ServiceProvides) where
    -- `cattrs.structure(entry, ServiceProvides)`, with the converter of the class.
    unfoldable pub structure_provided : Toml → Result ManifestError ServiceProvides
    structure_provided entry =
        required (structure entry) bad_provides
        >>= (λ p. ok (record p { service = normalize_service_url p.service }))

    -- The comprehension raises TypeError where the entries are no sequence, and the errors of each entry,
    -- all of which become one ValueError.
    unfoldable pub structure_list : Toml → Result ManifestError (List ServiceProvides)
    structure_list data' = elim (iterate data') [
      | raise why ↦ raise bad_provides
      | ok entries ↦ each structure_provided entries
    ]

    unfoldable pub parse_provided : ServiceProvides → Result ManifestError ServiceProvides
    parse_provided p = require (is_some (packaging.parse_version p.version)) bad_version >> ok p

    unfoldable pub parse_services_v2 : Toml → Result ManifestError (List ServiceProvides)
    parse_services_v2 data' = do
      entries ← services_v2 (codes "provides") data'
      provides ← structure_list entries
      each parse_provided provides
