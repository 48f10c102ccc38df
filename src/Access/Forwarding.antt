-- ===== src/Access/Forwarding.antt =====
-- compute_space/src/compute_space/web/helpers/proxy.py: the headers that go with a request to an app,
-- and carries_openhost_credential of compute_space/src/compute_space/web/auth/auth.py.
pub mod Cookies
pub mod Sanitized
mod Tests
use cloud_in_a_bottle.Shared.{
  Bool, List, List_eq, String_eq, Text, [], any, codes, elem, filter, if◌then◌else◌, lower, map,
  not, starts_with, strip, ℕ, ℕ_eq, ◌&&◌, ◌++◌, ◌==◌, ◌∷◌,
}
use cloud_in_a_bottle.Access.Credentials.{AuthTables, is_openhost_credential}
use cloud_in_a_bottle.Access.Requests.{get_bearer_tokens}
use cloud_in_a_bottle.Access.Dispatch.{Header}

-- `s.split(c)`, with the part read so far in front.
unfoldable pub split_on : ℕ → Text → Text → List Text
split_on separator part [] = part ∷ []
split_on separator part (c ∷ s) =
    if c == separator then part ∷ split_on separator [] s else split_on separator (part ++ c ∷ []) s

-- `"; ".join(parts)`
abbrev pub join_parts : List Text → Text
join_parts [] = []
join_parts (p ∷ []) = p
join_parts (p ∷ q ∷ parts) = p ++ (codes "; " ++ join_parts (q ∷ parts))

abbrev pub is_session_cookie : Text → Bool
is_session_cookie part = starts_with (codes "session_token=") part

unfoldable pub kept_cookies : Text → List Text
kept_cookies value = filter (λ p. not (is_session_cookie p)) (map strip (split_on b';' [] value))

abbrev pub is_identity_header : Text → Bool
is_identity_header key = starts_with (codes "x-openhost-") (lower key)

unfoldable pub sanitize_forwarded_headers : Bool → List Header → List Header
sanitize_forwarded_headers strip_authorization [] = []
sanitize_forwarded_headers strip_authorization ((key, value) ∷ headers) =
    let rest = sanitize_forwarded_headers strip_authorization headers in
    let cookies = join_parts (kept_cookies value) in
    if is_identity_header key
    then rest
    else if (lower key == codes "authorization") && strip_authorization
    then rest
    else if lower key == codes "cookie"
    then (if cookies == [] then rest else (key, cookies) ∷ rest)
    else (key, value) ∷ rest

abbrev pub http_request_excluded_headers : List Text
http_request_excluded_headers =
    codes "host"
    ∷ codes "connection"
    ∷ codes "transfer-encoding"
    ∷ codes "accept-encoding"
    ∷ codes "x-forwarded-for"
    ∷ codes "x-forwarded-proto"
    ∷ codes "x-forwarded-host"
    ∷ []

module _ (hash : Text → Text) (now : ℕ) (t : AuthTables) where
  unfoldable pub carries_openhost_credential : List Header → Bool
  carries_openhost_credential headers =
      any (λ token. is_openhost_credential hash now token t)
        (get_bearer_tokens headers (codes "Authorization"))

  unfoldable pub build_forwarded_request_headers :
      List Header → List Text → List Header → List Header
  build_forwarded_request_headers headers excluded extra =
      filter (λ (h : Header). not (elem (lower h.0) excluded))
        (sanitize_forwarded_headers (carries_openhost_credential headers) headers)
      ++ extra
