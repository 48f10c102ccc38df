-- ===== src/Access/Forwarding/Tests.antt =====
-- Tests of the headers that go to an app, and their theorem at a request.
use cloud_in_a_bottle.Shared.{
  All, List, List_eq, Memᴰ, String_eq, Text, [], codes, elem, false, filter, is_space, lower,
  lstrip, not, refl, rstrip, starts_with, strip, true, ℕ_eq, ◌==◌, ◌∷◌, ◌≡◌, ◌⊎◌,
}
use cloud_in_a_bottle.Access.Credentials.{AuthTables, is_openhost_credential}
use cloud_in_a_bottle.Access.Requests.{get_bearer_tokens}
use cloud_in_a_bottle.Access.Dispatch.{Header}
use cloud_in_a_bottle.Access.Forwarding.{
  split_on, is_session_cookie, kept_cookies, is_identity_header, sanitize_forwarded_headers,
  carries_openhost_credential, build_forwarded_request_headers, http_request_excluded_headers,
}
use cloud_in_a_bottle.Access.Forwarding.Cookies.{cookies_of}
use cloud_in_a_bottle.Access.Forwarding.Sanitized.{build_forwarded_request_headers-IsClean}

abbrev hash : Text → Text
hash s = s

abbrev nobody : AuthTables
nobody = record { users = []; sessions = []; api_tokens = []; app_tokens = []; apps = [] }

abbrev sent : List Header
sent =
    (codes "X-OpenHost-Is-Owner", codes "true")
    ∷ (codes "Cookie", codes "theme=dark; session_token=s3cret; lang=en")
    ∷ (codes "Host", codes "notes.host.example.com")
    ∷ []

abbrev added : List Header
added = (codes "X-Forwarded-Proto", codes "https") ∷ []

abbrev kept_cookie : Header
kept_cookie = (codes "Cookie", codes "theme=dark; lang=en")

forwarded_test :
    build_forwarded_request_headers hash 5 nobody sent http_request_excluded_headers added
    ≡ kept_cookie ∷ added
unfolding build_forwarded_request_headers sanitize_forwarded_headers carries_openhost_credential
    kept_cookies split_on strip lstrip rstrip is_space lower starts_with get_bearer_tokens
forwarded_test = refl

cookie_test :
    Memᴰ kept_cookie
      (build_forwarded_request_headers hash 5 nobody sent http_request_excluded_headers added)
cookie_test = rw forwarded_test (Memᴰ.head refl)

build_forwarded_request_headers-IsClean_example :
    Memᴰ kept_cookie added
    ⊎ ((elem (lower kept_cookie.0) http_request_excluded_headers ≡ false)
        × (is_identity_header kept_cookie.0 ≡ false)
        × ((lower kept_cookie.0 == codes "authorization") ≡ true
            → All
                (λ token. is_openhost_credential hash 5 token nobody ≡ false)
                (get_bearer_tokens sent (codes "Authorization")))
        × ((lower kept_cookie.0 == codes "cookie") ≡ false → Memᴰ kept_cookie sent)
        × ((lower kept_cookie.0 == codes "cookie") ≡ true
            → (value : Text) × Memᴰ (kept_cookie.0, value) sent
              × (cookies_of kept_cookie.1
                  ≡ filter (λ p. not (is_session_cookie p)) (cookies_of value))))
build_forwarded_request_headers-IsClean_example =
    build_forwarded_request_headers-IsClean hash 5 nobody sent http_request_excluded_headers added
      kept_cookie cookie_test
