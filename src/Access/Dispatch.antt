-- ===== src/Access/Dispatch.antt =====
-- SubdomainProxyMiddleware of compute_space/src/compute_space/web/middleware/subdomain_proxy.py: what
-- happens to a request before it reaches the router's own routes or an app.
pub mod Proxied
use cloud_in_a_bottle.Shared.{
  Bool, List, List_eq, Option, String_eq, Text, [], all, codes, elem, false, if◌then◌else◌, is_some,
  leb, none, not, ok, raise, some, true, ℕ, ℕ_eq, ◌&&◌, ◌++◌, ◌==◌, ◌||◌, ◌∷◌,
}
use cloud_in_a_bottle.Schema.{App, AppStatus}
use cloud_in_a_bottle.Domains.{
  Domain, match, app_name_from_hostname, looks_like_app_subdomain, scheme, host_no_port,
  name_no_port,
}
use cloud_in_a_bottle.Access.Credentials.{AuthTables}
use cloud_in_a_bottle.Access.Paths.{is_public_request_path}
use cloud_in_a_bottle.Access.Requests.{
  Connection, Url, ScopeType, http, websocket, other_scope, NotAuthorized, not_authorized,
  confirm_navigation, header, non_empty,
}
use cloud_in_a_bottle.Access.Owner.{verify_owner_auth, get_app_from_hostname}

abbrev pub Header : Type 0
Header = Text × Text

-- Where a request ends: in the router's own application, in an answer of the middleware, or in an app.
pub data Outcome : Type 0 where
  to_router : Option Domain → Outcome
  bad_request : Outcome
  not_found : Outcome
  auth_required : NotAuthorized → Outcome
  app_starting : Outcome
  proxied : ℕ → List Header → Outcome

abbrev pub router_internal_hosts : List Text
router_internal_hosts =
    codes "host.containers.internal" ∷ codes "host.docker.internal" ∷ codes "127.0.0.1" ∷ []

abbrev pub is_owner_header : Header
is_owner_header = (codes "X-OpenHost-Is-Owner", codes "true")

abbrev pub loopback_hosts : List Text
loopback_hosts = codes "127.0.0.1" ∷ codes "::1" ∷ []

unfoldable pub resolve_forwarded_for : Connection → Option Text
resolve_forwarded_for c = elim c.client_host [
  | none ↦ none
  | some host ↦
      if elem host loopback_hosts
        && is_some (non_empty (header (codes "x-forwarded-for") c.headers))
      then header (codes "x-forwarded-for") c.headers
      else some host
]

unfoldable pub is_digit : ℕ → Bool
is_digit c = leb b'0' c && leb c b'9'

-- `rpartition(":")[2]`, where a colon stands.
unfoldable pub after_last_colon : Text → Option Text
after_last_colon [] = none
after_last_colon (c ∷ s) =
    let rest = after_last_colon s in
    elim rest [ some port ↦ some port | none ↦ if c == b':' then some s else none ]

unfoldable pub host_with_request_port : Text → Text → Text
host_with_request_port host request_netloc = elim (after_last_colon request_netloc) [
  | none ↦ host
  | some port ↦ if not (port == []) && all is_digit port then host ++ (b':' ∷ port) else host
]

unfoldable pub router_base_url : Domain → Text → Text
router_base_url zone netloc =
    scheme zone ++ (codes "://" ++ host_with_request_port (name_no_port zone) netloc)

abbrev pub for_headers : Option Text → List Header
for_headers none = []
for_headers (some forwarded_for) = (codes "X-Forwarded-For", forwarded_for) ∷ []

unfoldable pub forwarded_headers : Connection → Domain → Text → List Header
forwarded_headers c zone netloc =
    (codes "X-Forwarded-Host", netloc)
    ∷ (codes "X-Forwarded-Proto", scheme zone)
    ∷ (codes "X-OpenHost-Router-URL", router_base_url zone netloc)
    ∷ for_headers (non_empty (resolve_forwarded_for c))

unfoldable pub is_coming_up : AppStatus → Bool
is_coming_up AppStatus.building = true
is_coming_up AppStatus.starting = true
is_coming_up _ = false

-- The request with the Domain stashed in its scope.
abbrev pub stash_zone : Domain → Connection → Connection
stash_zone zone c = record {
  scope_type = c.scope_type;
  method = c.method;
  netloc = c.netloc;
  base_netloc = c.base_netloc;
  headers = c.headers;
  session_cookie = c.session_cookie;
  raw_path = c.raw_path;
  client_host = c.client_host;
  zone = some zone;
}

-- The last step: the app that is coming up, or the proxy. Only HTTP sets Host.
unfoldable pub forward : Connection → Text → App → List Header → Outcome
forward c netloc app headers = if is_coming_up app.status then app_starting else elim c.scope_type [
  | http ↦ proxied app.local_port (headers ++ (codes "Host", netloc) ∷ [])
  | _ ↦ proxied app.local_port headers
]

module _ (unquote : Text → Option Text) where
  unfoldable pub is_public : App → Option Text → Bool
  is_public app none = false
  is_public app (some raw_path) = is_public_request_path unquote app.public_paths raw_path

  unfoldable pub has_paths : List Text → Bool
  has_paths [] = false
  has_paths (p ∷ ps) = true

  unfoldable pub not_hidden : List Text → NotAuthorized → Bool
  not_hidden public_paths confirm_navigation = true
  not_hidden [] not_authorized = false
  not_hidden (p ∷ ps) not_authorized = true

  -- Where the request is not the owner's.
  unfoldable pub as_anonymous : Connection → Text → App → List Header → NotAuthorized → Outcome
  as_anonymous c netloc app headers exception =
      if not (has_paths app.public_paths) || not (is_public app c.raw_path)
      then (if not_hidden app.public_paths exception then auth_required exception else not_found)
      else forward c netloc app headers

  module _ (urlparse : Text → Option Url) (hash : Text → Text) (now : ℕ) (t : AuthTables) where
    unfoldable pub to_app : Connection → Text → Domain → App → Outcome
    to_app c netloc zone app =
        let headers = forwarded_headers c zone netloc in
        elim (verify_owner_auth urlparse hash now t c true) [
          | ok done ↦ forward c netloc app (headers ++ is_owner_header ∷ [])
          | raise exception ↦ as_anonymous c netloc app headers exception
        ]

    -- `app` is the one of the host name, if the zone has one.
    unfoldable pub in_zone : Connection → Text → Domain → Option App → Outcome
    in_zone c netloc zone (some app) = to_app (stash_zone zone c) netloc zone app
    in_zone c netloc zone none =
        if looks_like_app_subdomain zone netloc then not_found else to_router (some zone)

    unfoldable pub on_host : Connection → List Domain → Text → Outcome
    on_host c domains netloc = elim (match domains netloc) [
      | some zone ↦ in_zone c netloc zone (get_app_from_hostname netloc domains t.apps)
      | none ↦
          if elem (host_no_port netloc) router_internal_hosts then to_router c.zone else not_found
    ]

    unfoldable pub dispatch : Connection → List Domain → Outcome
    dispatch c domains = elim c.scope_type [
      | other_scope ↦ to_router c.zone
      | _ ↦ elim c.netloc [ none ↦ bad_request | some netloc ↦ on_host c domains netloc ]
    ]
