-- ===== src/Access/Requests.antt =====
-- compute_space/src/compute_space/web/auth/auth.py: who makes a request, and whether a session cookie
-- counts on it. `urllib.parse.urlparse` is a parameter, none where it or a field raises ValueError.
use cloud_in_a_bottle.Shared.{
  Bool, List, List_eq, Option, Result, String_eq, Text, [], any, codes, drop, false, if◌then◌else◌,
  is_some, is_space, lower, ltb, none, not, ok, opt_eq, raise, some, starts_with, strip, true, ℕ,
  ℕ_eq, ◌&&◌, ◌++◌, ◌==◌, ◌||◌, ◌∷◌,
}
use cloud_in_a_bottle.Domains.{Domain, owns, url, scheme}

pub data ScopeType : Type 0 where
  http websocket other_scope : ScopeType

pub record Url : Type 0 where
  pub url_scheme : Text
  pub hostname : Option Text
  pub port : Option ℕ
  pub username : Option Text

-- `zone` is the Domain that the middleware stashed; `netloc` is none where the URL cannot be parsed.
pub record Connection : Type 0 where
  pub scope_type : ScopeType
  pub method : Text
  pub netloc : Option Text
  pub base_netloc : Text
  pub headers : List (Text × Text)
  pub session_cookie : Option Text
  pub raw_path : Option Text
  pub client_host : Option Text
  pub zone : Option Domain

-- The headers' `get`: the first value, names compared without case.
unfoldable pub header : Text → List (Text × Text) → Option Text
header name [] = none
header name ((key, value) ∷ headers) =
    if lower key == lower name then some value else header name headers

unfoldable pub get_bearer_tokens : List (Text × Text) → Text → List Text
get_bearer_tokens [] name = []
get_bearer_tokens ((key, value) ∷ headers) name =
    let tokens = get_bearer_tokens headers name in
    let token = strip (drop 7 value) in
    if (lower key == lower name) && starts_with (codes "bearer ") (lower value)
    then (if token == [] then tokens else token ∷ tokens)
    else tokens

abbrev pub first : List Text → Option Text
first [] = none
first (t ∷ ts) = some t

-- `if x := ...`: an empty text does not count.
abbrev pub non_empty : Option Text → Option Text
non_empty none = none
non_empty (some []) = none
non_empty (some (c ∷ s)) = some (c ∷ s)

abbrev pub authorization_header : Text
authorization_header = codes "X-OpenHost-Authorization"

unfoldable pub get_bearer_token_if_set : Connection → Option Text
get_bearer_token_if_set c =
    if is_some (non_empty (header authorization_header c.headers))
    then first (get_bearer_tokens c.headers authorization_header)
    else first (get_bearer_tokens c.headers (codes "Authorization"))

-- A character that no origin has.
unfoldable pub is_suspect : ℕ → Bool
is_suspect c = is_space c || (ltb c 32 || (c == b'\\'))

-- `raw.partition("://")[2]`
unfoldable pub after_scheme : Text → Text
after_scheme [] = []
after_scheme (c ∷ s) = if starts_with (codes "://") (c ∷ s) then drop 2 s else after_scheme s

unfoldable pub default_port : Text → ℕ
default_port scheme = if scheme == codes "http" then 80 else 443

abbrev pub Origin : Type 0
Origin = Text × Text × ℕ

unfoldable pub origin_of_url : Url → Option Origin
origin_of_url url =
    if not ((url.url_scheme == codes "http") || (url.url_scheme == codes "https"))
    then none
    else if is_some url.username
    then none
    else elim (non_empty url.hostname) [
      | none ↦ none
      | some host ↦ elim url.port [
        | none ↦ some (url.url_scheme, host, default_port url.url_scheme)
        | some port ↦ some (url.url_scheme, host, port)
      ]
    ]

unfoldable pub same_origin : Origin → Origin → Bool
same_origin (s, h, p) (t, i, q) = (s == t) && ((h == i) && (p == q))

-- `==` on the results, either of which may be None.
unfoldable pub origins_agree : Option Origin → Option Origin → Bool
origins_agree none none = true
origins_agree none (some b) = false
origins_agree (some a) none = false
origins_agree (some a) (some b) = same_origin a b

pub data NotAuthorized : Type 0 where
  not_authorized : NotAuthorized
  confirm_navigation : NotAuthorized

-- `needle in text`
unfoldable pub contains_text : Text → Text → Bool
contains_text needle [] = needle == []
contains_text needle (c ∷ s) = starts_with needle (c ∷ s) || contains_text needle s

unfoldable pub or_empty : Option Text → Text
or_empty none = []
or_empty (some s) = s

module _ (urlparse : Text → Option Url) where
  unfoldable pub http_origin : Bool → Text → Option Origin
  http_origin referer raw = if any is_suspect raw then none else elim (urlparse raw) [
    | none ↦ none
    | some url ↦
        if not referer && any (λ c. (c == b'/') || ((c == b'?') || (c == b'#'))) (after_scheme raw)
        then none
        else origin_of_url url
  ]

  unfoldable pub referer_allows_confirmation : Domain → Option Text → Bool
  referer_allows_confirmation zone none = true
  referer_allows_confirmation zone (some raw) = elim (http_origin true raw) [
    | none ↦ false
    | some o ↦ owns zone o.1
  ]

  unfoldable pub comes_from : Origin → Option Text → Bool
  comes_from target none = false
  comes_from target (some raw) = origins_agree (http_origin true raw) (some target)

  -- What follows where no Origin is set: the Referer, or else a page load that the owner confirms.
  unfoldable pub by_referer : Domain → Origin → Connection → Result NotAuthorized Bool
  by_referer zone target c =
      let referer = header (codes "Referer") c.headers in
      let accept = or_empty (header (codes "Accept") c.headers) in
      if comes_from target referer
      then ok true
      else if (c.method == codes "GET")
          && (contains_text (codes "text/html") accept
              && (not (contains_text (codes "application/json") accept)
                  && referer_allows_confirmation zone referer))
      then raise confirm_navigation
      else ok false

  unfoldable pub by_origin : Domain → Origin → Connection → Result NotAuthorized Bool
  by_origin zone target c = elim (header (codes "Origin") c.headers) [
    | some origin ↦ ok (origins_agree (http_origin false origin) (some target))
    | none ↦ by_referer zone target c
  ]

  unfoldable pub is_safe_for_cookie_auth_plain_http : Connection → Result NotAuthorized Bool
  is_safe_for_cookie_auth_plain_http c = elim c.zone [
    | none ↦ ok false
    | some zone ↦
        if zone.tls then ok false else elim (http_origin false (codes "http://" ++ c.base_netloc)) [
          | none ↦ ok false
          | some target ↦ by_origin zone target c
        ]
  ]

  unfoldable pub is_safe_for_cookie_auth_http : Connection → Bool → Result NotAuthorized Bool
  is_safe_for_cookie_auth_http c allow_cross_site_navigation =
      elim (header (codes "Sec-Fetch-Site") c.headers) [
        | none ↦ is_safe_for_cookie_auth_plain_http c
        | some site ↦ ok (
            ((site == codes "same-origin") || (site == codes "none"))
            || (((site == codes "same-site")
                  || ((site == codes "cross-site") && allow_cross_site_navigation))
                && (((c.method == codes "GET") || (c.method == codes "HEAD"))
                    && opt_eq (header (codes "Sec-Fetch-Dest") c.headers)
                        (some (codes "document")))))
      ]
