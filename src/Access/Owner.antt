-- ===== src/Access/Owner.antt =====
-- compute_space/src/compute_space/web/auth/auth.py: `authenticate`, `verify_owner_auth` and
-- `verify_app_auth`.
pub mod Verified
use Prim.Native.Nat.{◌/◌, ◌%◌}
use cloud_in_a_bottle.Shared.{
  Bool, List, List_eq, Option, Result, String, String_eq, Text, [], codes, false, find?,
  if◌then◌else◌, is_some, lower, ltb, none, ok, opt_eq, raise, some, strip, suc, true, when_set,
  zero, ℕ, ℕ_eq, ◌++◌, ◌+◌, ◌==◌, ◌∷◌,
}
use cloud_in_a_bottle.Schema.{App}
use cloud_in_a_bottle.Domains.{Domain, match, app_name_from_hostname, url}
use cloud_in_a_bottle.Access.Credentials.{
  AuthTables, Accessor, authenticated_user, authenticated_api_key, authenticated_app,
  validate_session_token, validate_api_token, validate_app_token,
}
use cloud_in_a_bottle.Access.Requests.{
  Connection, Url, ScopeType, http, websocket, other_scope, NotAuthorized, not_authorized,
  confirm_navigation, header, get_bearer_token_if_set, is_safe_for_cookie_auth_http, non_empty,
  Origin,
}

-- `find_app_by_name`, of the app that a host name belongs to.
unfoldable pub get_app_from_hostname : Text → List Domain → List App → Option App
get_app_from_hostname host domains apps = elim (match domains host) [
  | none ↦ none
  | some matched ↦ elim (app_name_from_hostname matched host) [
    | none ↦ none
    | some name ↦ find? (λ (a : App). a.name == name) apps
  ]
]

abbrev digits_of : ℕ → ℕ → Text → Text
digits_of zero n acc = acc
digits_of (suc fuel) n acc =
    let more = digits_of fuel (n / 10) ((b'0' + n % 10) ∷ acc) in
    if ltb n 10 then (b'0' + n) ∷ acc else more

-- `str(n)`: a number below 10 ^ fuel needs no more than fuel digits.
abbrev pub decimal : ℕ → Text
decimal n = digits_of (suc n) n []

-- A port of 0 does not count.
unfoldable pub host_of_url : Text → Url → Text
host_of_url raw url = elim (non_empty url.hostname) [
  | none ↦ if strip raw == [] then codes "null" else lower (strip raw)
  | some host ↦ elim url.port [
    | none ↦ host
    | some port ↦ if port == 0 then host else host ++ (b':' ∷ decimal port)
  ]
]

abbrev pub or_else : Option Accessor → Option Accessor → Option Accessor
or_else (some accessor) next = some accessor
or_else none next = next

module _ (urlparse : Text → Option Url) where
  unfoldable pub url_host : Text → Text
  url_host raw = elim (urlparse raw) [ none ↦ codes "null" | some url ↦ host_of_url raw url ]

  unfoldable pub get_connection_origin : Connection → Option Text
  get_connection_origin c = elim (header (codes "Origin") c.headers) [
    | none ↦ none
    | some raw ↦ some (url_host raw)
  ]

  unfoldable pub is_safe_for_cookie_auth : Connection → Bool → Result NotAuthorized Bool
  is_safe_for_cookie_auth c allow_cross_site_navigation = elim c.scope_type [
    | websocket ↦ ok (opt_eq (get_connection_origin c) (some c.base_netloc))
    | http ↦ is_safe_for_cookie_auth_http urlparse c allow_cross_site_navigation
    | other_scope ↦ ok false
  ]

  module _ (hash : Text → Text) (now : ℕ) (t : AuthTables) where
    abbrev pub session_user : Connection → Option Accessor
    session_user c =
        when_set (non_empty c.session_cookie) (λ token. validate_session_token hash now token t)

    -- The API key of the bearer token.
    abbrev pub bearer_key : Connection → Option Accessor
    bearer_key c =
        when_set (get_bearer_token_if_set c) (λ token. validate_api_token hash now token t)

    abbrev pub bearer_app : Connection → Option Accessor
    bearer_app c = when_set (get_bearer_token_if_set c) (λ token. validate_app_token hash token t)

    unfoldable pub authenticate : Connection → Option Accessor
    authenticate c = or_else (session_user c) (or_else (bearer_key c) (bearer_app c))

    -- What a session is worth, where the check of the cookie's request raised, or ended.
    unfoldable pub verify_user :
        Connection → Result NotAuthorized Bool → Result {0, 0} NotAuthorized Unit
    verify_user c (ok true) = ok tt
    verify_user c (ok false) = if is_some (bearer_key c) then ok tt else raise not_authorized
    verify_user c (raise confirmation) =
        if is_some (bearer_key c) then ok tt else raise confirmation

    unfoldable pub verify_accessor :
        Connection → Bool → Option Accessor → Result {0, 0} NotAuthorized Unit
    verify_accessor c allow (some (authenticated_user id name)) =
        verify_user c (is_safe_for_cookie_auth c allow)
    verify_accessor c allow (some authenticated_api_key) = ok tt
    verify_accessor c allow (some (authenticated_app id)) = raise not_authorized
    verify_accessor c allow none = raise not_authorized

    unfoldable pub verify_owner_auth : Connection → Bool → Result {0, 0} NotAuthorized Unit
    verify_owner_auth c allow_cross_site_navigation =
        verify_accessor c allow_cross_site_navigation (authenticate c)

    unfoldable pub verify_app_auth : Connection → List Domain → Result NotAuthorized String
    verify_app_auth c domains = elim (authenticate c) [
      | none ↦ raise not_authorized
      | some accessor ↦ elim accessor [
        | authenticated_app id ↦ ok id
        | authenticated_api_key ↦ raise not_authorized
        | authenticated_user id name ↦ elim (get_connection_origin c) [
          | none ↦ raise not_authorized
          | some origin ↦ elim (get_app_from_hostname origin domains t.apps) [
            | none ↦ raise not_authorized
            | some a ↦ ok a.app_id
          ]
        ]
      ]
    ]
