-- ===== src/Services.antt =====
-- compute_space/src/compute_space/core/service_interface (services.py, resolve.py, provider.py,
-- builtin_services.py, proxy_target.py): who provides a service, who serves it by default, and where a
-- call of it goes. Versions and specifiers of the library packaging are a parameter.
mod Tests
pub mod Incumbent
pub mod Joined
pub mod Install
pub mod Defaults
pub mod Resolution
use cloud_in_a_bottle.Shared.{
  Bool, List, List_eq, Option, Order, Result, String, String_eq, Text, [], any, codes, false,
  filter, find?, if◌then◌else◌, ltb, none, not, ok, raise, some, true, ℕ, ℕ_eq, ◌&&◌, ◌++◌, ◌==◌,
  ◌∷◌,
}
use cloud_in_a_bottle.Schema.{App, AppStatus, running}

-- packaging.version and packaging.specifiers: versions are totally preordered.
pub record Packaging : Type 1 where
  pub Version : Type 0
  pub SpecifierSet : Type 0
  pub parse_version : Text → Option Version
  pub parse_specifier : Text → Option SpecifierSet
  pub version_order : Order Version
  pub contains : SpecifierSet → Version → Bool

pub data AsgiApp : Type 0 where
  app_definitions : AsgiApp

pub record BuiltinService : Type 0 where
  pub service_url : String
  pub version : Text
  pub app : AsgiApp

abbrev pub router_app_id : String
router_app_id = "_openhost_router"

abbrev pub router_app_name : Text
router_app_name = codes "OpenHost Router"

abbrev pub builtin_services : List BuiltinService
builtin_services =
    record {
      service_url = "github.com/cloud-in-a-bottle/cloud-in-a-bottle/services/app-definitions";
      version = codes "0.1.0";
      app = app_definitions;
    }
    ∷ []

unfoldable pub builtin_by_url : String → Option BuiltinService
builtin_by_url service_url = find? (λ s. s.service_url == service_url) builtin_services

-- A row of service_providers_v2, and one of service_defaults.
pub record ProviderRow : Type 0 where
  pub service_url : String
  pub app_id : String
  pub service_version : Text
  pub endpoint : Text

pub record DefaultRow : Type 0 where
  pub service_url : String
  pub app_id : String

pub record Tables : Type 0 where
  pub apps : List App
  pub providers : List ProviderRow
  pub defaults : List DefaultRow

-- A service that a manifest provides.
pub record ProvidedService : Type 0 where
  pub service : String
  pub version : Text
  pub endpoint : Text

-- `INSERT OR REPLACE`: a row with the same key goes.
unfoldable pub replace_provider : ProviderRow → List ProviderRow → List ProviderRow
replace_provider row rows =
    filter
      (λ r. not (
        (r.service_url == row.service_url)
        && ((r.app_id == row.app_id) && (r.service_version == row.service_version))))
      rows
    ++ row ∷ []

unfoldable pub insert_provided : String → List ProvidedService → List ProviderRow → List ProviderRow
insert_provided app_id [] rows = rows
insert_provided app_id (svc ∷ svcs) rows = insert_provided app_id svcs (
    replace_provider
      (record {
        service_url = svc.service;
        app_id = app_id;
        service_version = svc.version;
        endpoint = svc.endpoint;
      })
      rows)

-- `DELETE` of the app's rows, then an insertion for each service of the manifest.
unfoldable pub register_services_provided_by_app : String → List ProvidedService → Tables → Tables
register_services_provided_by_app app_id provides t = record {
  apps = t.apps;
  providers = insert_provided app_id provides (filter (λ r. not (r.app_id == app_id)) t.providers);
  defaults = t.defaults;
}

unfoldable pub app_by_id : String → List App → Option App
app_by_id app_id apps = find? (λ a. a.app_id == app_id) apps

-- service_providers_v2 JOIN apps: apps.app_id is a primary key.
unfoldable pub join_apps : List App → List ProviderRow → List (ProviderRow × App)
join_apps apps [] = []
join_apps apps (r ∷ rows) = elim (app_by_id r.app_id apps) [
  | none ↦ join_apps apps rows
  | some a ↦ (r, a) ∷ join_apps apps rows
]

unfoldable pub providers_of : String → Tables → List (ProviderRow × App)
providers_of service_url t =
    join_apps t.apps (filter (λ r. r.service_url == service_url) t.providers)

-- `min` of the first row's `created_at` and the others'.
unfoldable pub oldest_from : ℕ → List (ProviderRow × App) → ℕ
oldest_from oldest [] = oldest
oldest_from oldest ((r, a) ∷ rows) =
    oldest_from (if ltb a.created_at oldest then a.created_at else oldest) rows

unfoldable pub tied : ℕ → List (ProviderRow × App) → List (ProviderRow × App)
tied oldest rows = filter (λ (c : ProviderRow × App). c.1.created_at == oldest) rows

pub data ServiceError : Type 0 where
  invalid_version : ServiceError
  invalid_specifier : ServiceError
  no_provider : ServiceError
  provider_not_running : ServiceError
  provider_version : ServiceError

pub data LookupError : Type 0 where
  router_does_not_provide : LookupError
  app_does_not_provide : LookupError

pub data ProxyTarget : Type 0 where
  local_port : ℕ → ProxyTarget
  in_process : AsgiApp → ProxyTarget

pub record ResolvedProvider : Type 0 where
  pub service_url : String
  pub app_id : String
  pub app_name : Text
  pub service_version : Text
  pub endpoint : Text
  pub target : ProxyTarget

-- A catalogue entry.
pub record ServiceProvider : Type 0 where
  pub service_url : String
  pub app_id : String
  pub app_name : Text
  pub service_version : Text
  pub endpoint : Text
  pub status : AppStatus
  pub is_default : Bool

unfoldable pub is_running : AppStatus → Bool
is_running running = true
is_running _ = false

unfoldable pub clear_default : String → Tables → Tables
clear_default service_url t = record {
  apps = t.apps;
  providers = t.providers;
  defaults = filter (λ d. not (d.service_url == service_url)) t.defaults;
}

unfoldable pub provides : String → String → Tables → Bool
provides service_url app_id t =
    any (λ r. (r.service_url == service_url) && (r.app_id == app_id)) t.providers

unfoldable pub insert_default : String → String → Tables → Tables
unfolding clear_default
insert_default service_url app_id t = record {
  apps = t.apps;
  providers = t.providers;
  defaults =
      (clear_default service_url t).defaults
      ++ record { service_url = service_url; app_id = app_id } ∷ [];
}

unfoldable pub set_default : String → String → Tables → Result LookupError Tables
set_default service_url app_id t =
    if app_id == router_app_id
    then elim (builtin_by_url service_url) [
      | none ↦ raise router_does_not_provide
      | some b ↦ ok (clear_default service_url t)
    ]
    else if provides service_url app_id t
    then ok (insert_default service_url app_id t)
    else raise app_does_not_provide

unfoldable pub default_row : String → Tables → Option DefaultRow
default_row service_url t = find? (λ d. d.service_url == service_url) t.defaults
