-- ===== src/Access/Tests.antt =====
-- Tests of the access rules, and their theorems at concrete requests. Paths decode to themselves, a
-- token is its own hash, and no URL is parsed.
use cloud_in_a_bottle.Shared.{
  List, List_eq, Option, String_eq, Text, [], all, before, codes, elem, ends_with, false,
  if◌then◌else◌, leb, lower, ltb, none, ok, refl, some, starts_with, suc, true, ℕ, ℕ_eq, ◌+◌, ◌==◌,
  ◌↔◌, ◌∷◌, ◌≡◌, ◌⊎◌,
}
use cloud_in_a_bottle.Schema.{App, AppStatus}
use cloud_in_a_bottle.Domains.{
  Domain, match, app_name_from_hostname, looks_like_app_subdomain, scheme, host_no_port,
  name_no_port, owns, is_valid_app_name, is_alnum, is_inner, inner_then_alnum,
}
use cloud_in_a_bottle.Access.Credentials.{
  User, AuthTables, authenticated_user, authenticated_api_key, session_ttl_seconds, create_session,
  revoke_session, validate_session_token,
}
use cloud_in_a_bottle.Access.Credentials.Sessions.{create_session-validate, revoke_session-validate}
use cloud_in_a_bottle.Access.Paths.{
  rstrip_slash, is_public_path, is_allowed_character, split_slash, is_ordinary_segment,
  is_unambiguous_path, is_public_decoded, is_public_request_path,
}
use cloud_in_a_bottle.Access.Paths.Decoded.{decoded, IsOpenPath, is_public_request_path-IsOpenPath}
use cloud_in_a_bottle.Access.Requests.{
  Connection, Url, http, header, get_bearer_tokens, get_bearer_token_if_set,
}
use cloud_in_a_bottle.Access.Owner.{
  is_safe_for_cookie_auth, session_user, bearer_key, authenticate, verify_accessor,
  verify_owner_auth, get_app_from_hostname,
}
use cloud_in_a_bottle.Access.Owner.Verified.{verify_owner_auth_iff}
use cloud_in_a_bottle.Access.Dispatch.{
  proxied, Header, is_coming_up, forward, is_public, as_anonymous, to_app, in_zone, on_host,
  dispatch, forwarded_headers, resolve_forwarded_for, has_paths, host_with_request_port,
  after_last_colon, is_digit, router_base_url,
}
use cloud_in_a_bottle.Access.Dispatch.Proxied.{IsAllowed, dispatch-proxied}

abbrev unquote : Text → Option Text
unquote s = some s

abbrev hash : Text → Text
hash s = s

abbrev urlparse : Text → Option Url
urlparse s = none

abbrev owner : User
owner = record { user_id = 1; username = codes "owner" }

abbrev notes : App
notes = record {
  app_id = "notes";
  name = codes "notes";
  local_port = 9001;
  container_id = none;
  status = AppStatus.running;
  error_message = none;
  public_paths = codes "/public" ∷ [];
  created_at = 1;
}

abbrev tables : AuthTables
tables = record {
  users = owner ∷ [];
  sessions = record { token_hash = codes "cookie"; user_id = 1; expires_at = 100 } ∷ [];
  api_tokens = [];
  app_tokens = [];
  apps = notes ∷ [];
}

abbrev zone_test : Domain
zone_test = record { name = codes "host.example.com"; tls = true }

abbrev domains_test : List Domain
domains_test = zone_test ∷ []

abbrev request : Text → Text → Option Text → List (Text × Text) → Connection
request method path cookie headers = record {
  scope_type = http;
  method = method;
  netloc = some (codes "notes.host.example.com");
  base_netloc = codes "notes.host.example.com";
  headers = headers;
  session_cookie = cookie;
  raw_path = some path;
  client_host = none;
  zone = none;
}

abbrev visit : Connection
visit = request (codes "GET") (codes "/public/a") none []

abbrev cross_headers : List (Text × Text)
cross_headers = (codes "Sec-Fetch-Site", codes "same-site") ∷ []

abbrev cross_post : Connection
cross_post = request (codes "POST") (codes "/delete") (some (codes "cookie")) cross_headers

abbrev sent_test : List Header
sent_test =
    (codes "X-Forwarded-Host", codes "notes.host.example.com")
    ∷ (codes "X-Forwarded-Proto", codes "https")
    ∷ (codes "X-OpenHost-Router-URL", codes "https://host.example.com")
    ∷ (codes "Host", codes "notes.host.example.com")
    ∷ []

public_path_test : is_public_request_path unquote notes.public_paths (codes "/public/a") ≡ true
unfolding is_public_request_path is_public_decoded is_unambiguous_path is_public_path starts_with
    rstrip_slash is_allowed_character split_slash is_ordinary_segment before
public_path_test = refl

traversal_test : is_public_request_path unquote notes.public_paths (codes "/public/../a") ≡ false
unfolding is_public_request_path is_public_decoded is_unambiguous_path is_public_path starts_with
    rstrip_slash is_allowed_character split_slash is_ordinary_segment before
traversal_test = refl

visit_test : dispatch unquote urlparse hash 50 tables visit domains_test ≡ proxied 9001 sent_test
unfolding dispatch on_host in_zone match owns name_no_port before host_no_port lower ends_with
    get_app_from_hostname app_name_from_hostname looks_like_app_subdomain is_valid_app_name is_alnum
    inner_then_alnum is_inner to_app verify_owner_auth verify_accessor authenticate after_last_colon
    as_anonymous forward forwarded_headers has_paths host_with_request_port is_coming_up is_digit
    is_public resolve_forwarded_for router_base_url is_allowed_character is_ordinary_segment
    is_public_decoded is_public_path is_public_request_path is_unambiguous_path rstrip_slash
    split_slash starts_with get_bearer_token_if_set get_bearer_tokens header scheme
visit_test = refl

no_key_test : bearer_key urlparse hash 50 tables cross_post ≡ none
unfolding get_bearer_token_if_set header get_bearer_tokens lower starts_with
no_key_test = refl

header_test : header (codes "Sec-Fetch-Site") cross_headers ≡ some (codes "same-site")
unfolding header lower
header_test = refl

verify_owner_auth_iff_example :
    (verify_owner_auth urlparse hash 50 tables cross_post true ≡ ok tt) ↔ (
      ((id : ℕ) × (name : Text) × (session_user urlparse hash 50 tables cross_post
          ≡ some (authenticated_user id name))
        × (is_safe_for_cookie_auth urlparse cross_post true ≡ ok true))
      ⊎ (bearer_key urlparse hash 50 tables cross_post ≡ some authenticated_api_key))
verify_owner_auth_iff_example = verify_owner_auth_iff urlparse hash 50 tables cross_post true

dispatch-proxied_example :
    (netloc : Text) × (zone : Domain) × (a : App) × (visit.netloc ≡ some netloc)
    × (match domains_test netloc ≡ some zone)
    × (get_app_from_hostname netloc domains_test tables.apps ≡ some a)
    × (9001 ≡ a.local_port)
    × (is_coming_up a.status ≡ false)
    × IsAllowed unquote urlparse hash 50 tables visit zone a sent_test
dispatch-proxied_example =
    dispatch-proxied unquote urlparse hash 50 tables visit domains_test 9001 sent_test visit_test

is_public_request_path-IsOpenPath_example :
    (elem b'#' (codes "/public/a") ≡ false)
    × (elem b'?' (codes "/public/a") ≡ false)
    × (all (λ c. ltb c 128) (codes "/public/a") ≡ true)
    × ((n : ℕ)
        → (q : Text) × (decoded unquote (suc n) (codes "/public/a") ≡ some q)
          × IsOpenPath unquote notes.public_paths q)
is_public_request_path-IsOpenPath_example =
    is_public_request_path-IsOpenPath unquote notes.public_paths (codes "/public/a")
      public_path_test refl

create_session-validate_example :
    validate_session_token hash 60 (codes "new") (create_session hash 50 1 (codes "new") tables) ≡ (
      if leb 60 (50 + session_ttl_seconds)
      then some (authenticated_user 1 (codes "owner"))
      else none)
create_session-validate_example =
    create_session-validate hash 50 60 owner (codes "new") tables refl (refl, tt)

revoke_session-validate_example :
    ((now : ℕ)
      → validate_session_token hash now
          (codes "cookie")
          (revoke_session hash (codes "cookie") tables)
        ≡ none)
    × ((now : ℕ) (other : Text)
        → (codes "cookie" == other) ≡ false
        → validate_session_token hash now other (revoke_session hash (codes "cookie") tables)
          ≡ validate_session_token hash now other tables)
revoke_session-validate_example = revoke_session-validate hash (codes "cookie") tables
