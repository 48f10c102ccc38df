-- ===== src/Manifests/Services/Consumed.antt =====
-- The services that a manifest accepted by _parse_services_v2_consumes of
-- compute_space/src/compute_space/core/manifest.py consumes.
use cloud_in_a_bottle.Shared.{
  All, Distinct, FreshFrom, FreshFrom-nil_iff, List, List_eq, String_eq, Text, [], bind-eq-ok,
  codes, elem, false, false_of_not, is_some, map, ok, ok-inj, require_iff, required-bind_iff, true,
  ℕ_eq, ◌∷◌, ◌≡◌,
}
use cloud_in_a_bottle.Manifests.Toml.{
  Toml, array, as_list, as_string, as_table, bad_grant, bad_shortname, bad_specifier,
  duplicate_shortname, end_of_array, grants_not_a_list, iterate, lookup, missing_field,
  no_attribute, not_a_table, or_default, wrong_type,
}
use cloud_in_a_bottle.Manifests.Container.{each}
use cloud_in_a_bottle.Manifests.Services.{
  ServiceConsumes, is_grant, matches_shortname, normalize_service_url, parse_consumed,
  parse_consumed_from, parse_grant, parse_services_v2_consumes, services_v2, check_consumed,
}
use cloud_in_a_bottle.Manifests.Container.Safe.{each-All}
use cloud_in_a_bottle.Services.{Packaging}

abbrev pub shortnames : List ServiceConsumes → List Text
shortnames = map (λ p. p.shortname)

module _ (packaging : Packaging) where
  -- A service with a valid shortname and version specifier, and grants that JSON can carry.
  pub record IsConsumed (p : ServiceConsumes) : Type 0 where
    pub shortname : matches_shortname p.shortname ≡ true
    pub version : is_some (packaging.parse_specifier p.version) ≡ true
    pub grants : All (λ g. is_grant g ≡ true) p.grants

  parse_grant-grant : (x g : Toml) → parse_grant x ≡ ok g → is_grant g ≡ true
  unfolding parse_grant
  parse_grant-grant x g h =
      let (holds, e) = (require_iff _ bad_grant _).0 h in
      let same : x ≡ g = ok-inj e in rw (← same) holds

  check_consumed-IsConsumed :
      (seen : List Text) (service shortname version : Toml) (grants : List Toml)
      (p : ServiceConsumes)
      → All (λ g. is_grant g ≡ true) grants
      → check_consumed packaging seen service shortname version grants ≡ ok p
      → IsConsumed p × (elem p.shortname seen ≡ false)
  unfolding check_consumed
  check_consumed-IsConsumed seen service shortname version grants p granted h =
      let (url, _, h1) = (required-bind_iff (as_string service) no_attribute _).0 h in
      let (name, _, h2) = (required-bind_iff (as_string shortname) wrong_type _).0 h1 in
      let (matches, h3) = (require_iff _ bad_shortname _).0 h2 in
      let (new, h4) = (require_iff _ duplicate_shortname _).0 h3 in
      let (specifier, _, h5) = (required-bind_iff (as_string version) wrong_type _).0 h4 in
      let (specified, h6) = (require_iff _ bad_specifier _).0 h5 in
      let e : record {
        service = normalize_service_url url;
        shortname = name;
        version = specifier;
        grants = grants;
      }
          ≡ p =
        ok-inj h6 in
      rw (← e)
        (record { shortname = matches; version = specified; grants = granted }, false_of_not _ new)

  parse_consumed-IsConsumed :
      (seen : List Text) (entry : Toml) (p : ServiceConsumes)
      → parse_consumed packaging seen entry ≡ ok p
      → IsConsumed p × (elem p.shortname seen ≡ false)
  unfolding parse_consumed
  parse_consumed-IsConsumed seen entry p h =
      let (fields, _, h1) = (required-bind_iff (as_table entry) not_a_table _).0 h in
      let (service, _, h2) =
        (required-bind_iff (lookup (codes "service") fields) missing_field _).0 h1 in
      let (shortname, _, h3) =
        (required-bind_iff (lookup (codes "shortname") fields) missing_field _).0 h2 in
      let (version, _, h4) =
        (required-bind_iff (lookup (codes "version") fields) missing_field _).0 h3 in
      let (raw, _, h5) =
        (required-bind_iff
            (as_list (or_default (array end_of_array) (lookup (codes "grants") fields)))
            grants_not_a_list _).0
          h4 in
      let (grants, granted, h6) = bind-eq-ok (each parse_grant raw) _ h5 in
      check_consumed-IsConsumed seen service shortname version grants p
        (each-All (λ g. is_grant g ≡ true) parse_grant parse_grant-grant raw grants granted) h6

  parse_consumed_from-IsConsumed :
      (entries : List Toml) (seen : List Text) (ps : List ServiceConsumes)
      → parse_consumed_from packaging seen entries ≡ ok ps
      → All IsConsumed ps × FreshFrom seen (shortnames ps)
  unfolding parse_consumed_from
  parse_consumed_from-IsConsumed [] seen ps h = let e : [] ≡ ps = ok-inj h in rw (← e) (tt, tt)
  parse_consumed_from-IsConsumed (entry ∷ entries) seen ps h =
      let (p, here, h1) = bind-eq-ok (parse_consumed packaging seen entry) _ h in
      let (later, rest, h2) =
        bind-eq-ok (parse_consumed_from packaging (p.shortname ∷ seen) entries) _ h1 in
      let e : p ∷ later ≡ ps = ok-inj h2 in
      let (consumed, new) = parse_consumed-IsConsumed seen entry p here in
      let (all_consumed, fresh) =
        parse_consumed_from-IsConsumed entries (p.shortname ∷ seen) later rest in
      rw (← e) ((consumed, all_consumed), (new, fresh))

  -- The services that are accepted have valid shortnames, specifiers and grants, and no two of them
  -- have one shortname.
  pub parse_services_v2_consumes-IsConsumed :
      (data' : Toml) (ps : List ServiceConsumes)
      → parse_services_v2_consumes packaging data' ≡ ok ps
      → All IsConsumed ps × Distinct (shortnames ps)
  unfolding parse_services_v2_consumes
  parse_services_v2_consumes-IsConsumed data' ps h =
      let (raw, _, h1) = bind-eq-ok (services_v2 (codes "consumes") data') _ h in
      let (entries, _, h2) = bind-eq-ok (iterate raw) _ h1 in
      let (consumed, fresh) = parse_consumed_from-IsConsumed entries [] ps h2 in
      (consumed, (FreshFrom-nil_iff (shortnames ps)).0 fresh)
