-- ===== src/Services/Resolution.antt =====
-- resolve_provider of compute_space/src/compute_space/core/service_interface/resolve.py: where a call of
-- a service goes.
pub mod Reached
use cloud_in_a_bottle.Shared.{
  List_eq, Option, Result, String, String_eq, Text, codes, filter, find?, if◌then◌else◌, none, not,
  ok, raise, some, true, ℕ_eq, ◌&&◌, ◌==◌, ◌>>=◌,
}
use cloud_in_a_bottle.Schema.{App}
use cloud_in_a_bottle.Services.{
  Packaging, ProviderRow, Tables, ServiceError, router_app_id, router_app_name, builtin_by_url,
  BuiltinService, join_apps, ResolvedProvider, is_running, invalid_specifier, no_provider,
  provider_not_running, provider_version, local_port, in_process,
}
use mathlib.Core.List.Memᴰ
use cloud_in_a_bottle.Services.Incumbent.{default_provider_id_for_service}

-- The first row of the join with the service and the app.
unfoldable pub provider_row : String → String → Tables → Option (ProviderRow × App)
provider_row service_url app_id t =
    find? (λ _. true)
      (join_apps t.apps
        (filter (λ r. (r.service_url == service_url) && (r.app_id == app_id)) t.providers))

abbrev pub builtin_provider : String → BuiltinService → ResolvedProvider
builtin_provider service_url b = record {
  service_url = service_url;
  app_id = router_app_id;
  app_name = router_app_name;
  service_version = b.version;
  endpoint = codes "/";
  target = in_process b.app;
}

abbrev pub app_provider : String → String → ProviderRow → App → ResolvedProvider
app_provider service_url app_id r a = record {
  service_url = service_url;
  app_id = app_id;
  app_name = a.name;
  service_version = r.service_version;
  endpoint = r.endpoint;
  target = local_port a.local_port;
}

module _ (packaging : Packaging) where
  open packaging use {SpecifierSet, parse_version, parse_specifier, contains}

  unfoldable pub check_version : Text → SpecifierSet → Result {0, 0} ServiceError Unit
  check_version version spec = elim (parse_version version) [
    | none ↦ raise provider_version
    | some v ↦ if contains spec v then ok tt else raise provider_version
  ]

  -- `provider_app_id or default_provider_id_for_service(...)`: an empty id is no id.
  unfoldable pub target_app_id :
      String → Option String → Tables → Result ServiceError (Option String)
  target_app_id service_url none t = default_provider_id_for_service packaging service_url t
  target_app_id service_url (some app_id) t =
      if app_id == ""
      then default_provider_id_for_service packaging service_url t
      else ok (some app_id)

  unfoldable pub resolve_builtin : String → SpecifierSet → Result ServiceError ResolvedProvider
  resolve_builtin service_url spec = elim (builtin_by_url service_url) [
    | none ↦ raise no_provider
    | some b ↦ check_version b.version spec >>= λ _. ok (builtin_provider service_url b)
  ]

  unfoldable pub resolve_app :
      String → String → SpecifierSet → Tables → Result ServiceError ResolvedProvider
  resolve_app service_url app_id spec t = elim (provider_row service_url app_id t) [
    | none ↦ raise no_provider
    | some c ↦
        if not (is_running c.1.status)
        then raise provider_not_running
        else (check_version c.0.service_version spec >>= λ _.
            ok (app_provider service_url app_id c.0 c.1))
  ]

  unfoldable pub resolve_target :
      String → SpecifierSet → Tables → Option String → Result ServiceError ResolvedProvider
  resolve_target service_url spec t none = raise no_provider
  resolve_target service_url spec t (some app_id) =
      if app_id == router_app_id
      then resolve_builtin service_url spec
      else resolve_app service_url app_id spec t

  unfoldable pub resolve_provider :
      String → Text → Tables → Option String → Result ServiceError ResolvedProvider
  resolve_provider service_url version_specifier t provider_app_id =
      elim (parse_specifier version_specifier) [
        | none ↦ raise invalid_specifier
        | some spec ↦
            target_app_id service_url provider_app_id t >>= resolve_target service_url spec t
      ]
