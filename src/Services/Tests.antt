-- ===== src/Services/Tests.antt =====
-- Tests of the services, and their theorems, with versions that are numbers written in one character
-- and specifiers that state a least version.
use cloud_in_a_bottle.Shared.{
  List, List_eq, Option, String, String_eq, Text, Text_order, [], arith, codes, none, not, ok, refl,
  some, text_lt, ℕ, ℕ_eq, ◌++◌, ◌+◌, ◌∷◌, ◌≡◌, ◌≢◌,
}
use cloud_in_a_bottle.Schema.{App, AppStatus}
use cloud_in_a_bottle.Services.{
  Packaging, ProviderRow, ProvidedService, Tables, ResolvedProvider, local_port, builtin_by_url,
  providers_of, default_row, app_by_id, join_apps, oldest_from, tied, set_default, insert_default,
  provides, is_running, register_services_provided_by_app,
}
use cloud_in_a_bottle.Services.Incumbent.{
  keyed, greatest, incumbent_of, incumbent_provider_id, default_provider_id_for_service,
  IsIncumbent, incumbent_provider_id-IsIncumbent,
}
use cloud_in_a_bottle.Services.Install.{default_provider-register}
use cloud_in_a_bottle.Services.Resolution.{
  provider_row, check_version, target_app_id, resolve_app, resolve_target, resolve_provider,
}
use cloud_in_a_bottle.Services.Resolution.Reached.{IsChosen, IsReached, resolve_provider-IsReached}

-- A version is a text of one character.
abbrev parse_digit : Text → Option Text
parse_digit [] = none
parse_digit (c ∷ []) = some (c ∷ [])
parse_digit (c ∷ d ∷ s) = none

abbrev digits : Packaging
digits = record {
  Version = Text;
  SpecifierSet = Text;
  parse_version = parse_digit;
  parse_specifier = λ s. some s;
  version_order = Text_order;
  contains = λ least v. not (text_lt v least);
}

abbrev files : String
files = "github.com/org/files"

abbrev installed : String → ℕ → App
installed id time = record {
  app_id = id;
  name = codes id;
  local_port = 9000 + time;
  container_id = none;
  status = AppStatus.running;
  error_message = none;
  public_paths = [];
  created_at = time;
}

abbrev provider : String → Text → ProviderRow
provider id version = record {
  service_url = files;
  app_id = id;
  service_version = version;
  endpoint = codes "/api";
}

abbrev two_apps : Tables
two_apps = record {
  apps = installed "first" 1 ∷ installed "second" 2 ∷ [];
  providers = provider "second" (codes "7") ∷ provider "first" (codes "3") ∷ [];
  defaults = [];
}

abbrev newcomer : List ProvidedService
newcomer = record { service = files; version = codes "9"; endpoint = codes "/" } ∷ []

incumbent_test : incumbent_provider_id digits files two_apps ≡ ok (some "first")
unfolding incumbent_provider_id incumbent_of keyed greatest providers_of join_apps app_by_id
    oldest_from tied
incumbent_test = refl

default_test : default_provider_id_for_service digits files two_apps ≡ ok (some "first")
unfolding default_provider_id_for_service default_row builtin_by_url
default_test = incumbent_test

picked : Tables
picked = insert_default files "second" two_apps

set_test : set_default files "second" two_apps ≡ ok picked
unfolding set_default provides picked
set_test = refl

first_files : ResolvedProvider
first_files = record {
  service_url = files;
  app_id = "first";
  app_name = codes "first";
  service_version = codes "3";
  endpoint = codes "/api";
  target = local_port 9001;
}

resolve_test : resolve_provider digits files (codes "2") two_apps (some "first") ≡ ok first_files
unfolding resolve_provider resolve_target target_app_id resolve_app provider_row check_version
    is_running join_apps app_by_id first_files
resolve_test = refl

incumbent_provider_id-IsIncumbent_example : IsIncumbent digits "first" (providers_of files two_apps)
incumbent_provider_id-IsIncumbent_example =
    incumbent_provider_id-IsIncumbent digits files two_apps "first" incumbent_test

served_test : default_provider_id_for_service digits files two_apps ≢ ok none
served_test h = ground (arith, default_test, h)

default_provider-register_example :
    default_provider_id_for_service digits files (
      register_services_provided_by_app "third" newcomer (record {
        apps = two_apps.apps ++ installed "third" 3 ∷ [];
        providers = two_apps.providers;
        defaults = two_apps.defaults;
      }))
    ≡ default_provider_id_for_service digits files two_apps
default_provider-register_example =
    default_provider-register digits files two_apps (installed "third" 3) newcomer
      (refl, (refl, tt)) (refl, (refl, tt)) (omega arith, (omega arith, tt)) served_test

resolve_provider-IsReached_example :
    (spec : Text) × (some (codes "2") ≡ some spec)
    × IsChosen digits files (some "first") two_apps first_files.app_id
    × IsReached digits files spec two_apps first_files
resolve_provider-IsReached_example =
    resolve_provider-IsReached digits files (codes "2") two_apps (some "first") first_files
      resolve_test
