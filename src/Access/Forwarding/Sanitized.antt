-- ===== src/Access/Forwarding/Sanitized.antt =====
-- What no header that a client sent carries to an app, by `_build_forwarded_request_headers` of
-- compute_space/src/compute_space/web/helpers/proxy.py.
use cloud_in_a_bottle.Shared.{
  All, All-if, All-map, All-mem, Bool, List, List_eq, Memᴰ, String_eq, Text, [], any-eq-false_iff,
  arith, codes, elem, false, filter, if◌then◌else◌, inl, inr, lower, mem_of_filter, not, refl, sym,
  true, ℕ, ℕ_eq, ◌&&◌, ◌++◌, ◌==◌, ◌∙◌, ◌∷◌, ◌≡◌, ◌⊎◌,
}
use cloud_in_a_bottle.Access.Credentials.{AuthTables, is_openhost_credential}
use cloud_in_a_bottle.Access.Requests.{get_bearer_tokens}
use cloud_in_a_bottle.Access.Dispatch.{Header}
use mathlib.Core.Bool.{false≢true}
use cloud_in_a_bottle.Access.Forwarding.Cookies.{cookies_of, cookies_of-kept_cookies}
use cloud_in_a_bottle.Access.Forwarding.{
  join_parts, is_session_cookie, kept_cookies, is_identity_header, sanitize_forwarded_headers,
  carries_openhost_credential, build_forwarded_request_headers,
}

-- A header without an identity of the router, from the headers that the client sent: a Cookie header has
-- the cookies of one of theirs but the session's, and another header is one of theirs.
abbrev pub IsClean : Bool → List Header → Header → Type 0
IsClean strip_authorization headers h =
    (is_identity_header h.0 ≡ false)
    × (((lower h.0 == codes "authorization") && strip_authorization) ≡ false)
    × ((lower h.0 == codes "cookie") ≡ false → Memᴰ h headers)
    × ((lower h.0 == codes "cookie") ≡ true
        → (value : Text) × Memᴰ (h.0, value) headers
          × (cookies_of h.1 ≡ filter (λ p. not (is_session_cookie p)) (cookies_of value)))

IsClean-cons :
    (strip_authorization : Bool) (x : Header) (headers : List Header) (h : Header)
    → IsClean strip_authorization headers h
    → IsClean strip_authorization (x ∷ headers) h
IsClean-cons s x headers h (plain, kept, sent, cookies) = (
  plain,
  kept,
  λ other. Memᴰ.tail (sent other),
  λ cookie. (let (value, m, same) = cookies cookie in (value, Memᴰ.tail m, same)),
)

mem_append : (xs ys : List Header) {h : Header} → Memᴰ h (xs ++ ys) → Memᴰ h xs ⊎ Memᴰ h ys
mem_append [] ys m = inr m
mem_append (x ∷ xs) ys (Memᴰ.head e) = inl (Memᴰ.head e)
mem_append (x ∷ xs) ys (Memᴰ.tail m) = elim (mem_append xs ys m) [
  | inl n ↦ inl (Memᴰ.tail n)
  | inr n ↦ inr n
]

sanitize-All :
    (strip_authorization : Bool) (headers : List Header)
    → All
        (IsClean strip_authorization headers)
        (sanitize_forwarded_headers strip_authorization headers)
unfolding sanitize_forwarded_headers
sanitize-All s [] = tt
sanitize-All s ((key, value) ∷ headers) =
    let rest = sanitize_forwarded_headers s headers in
    let P = IsClean s ((key, value) ∷ headers) in
    let clean = All-map (IsClean-cons s (key, value) headers) rest (sanitize-All s headers) in
    let sent = join_parts (kept_cookies value) in
    let authorization = (lower key == codes "authorization") && s in
    let is_cookie = lower key == codes "cookie" in
    let cookie_branch = if sent == [] then rest else (key, sent) ∷ rest in
    let last = if is_cookie then cookie_branch else (key, value) ∷ rest in
    All-if P (is_identity_header key) rest (if authorization then rest else last) (λ _. clean)
      (λ plain.
        All-if P authorization rest last (λ _. clean)
          (λ kept.
            All-if P is_cookie cookie_branch ((key, value) ∷ rest)
              (λ cookie.
                All-if P (sent == []) rest ((key, sent) ∷ rest) (λ _. clean)
                  (λ some_cookie. (
                    (
                      plain,
                      kept,
                      λ other. absurd (false≢true (sym other ∙ cookie)),
                      λ _. (value, Memᴰ.head refl, cookies_of-kept_cookies value some_cookie),
                    ),
                    clean,
                  )))
              (λ other. (
                (
                  plain,
                  kept,
                  λ _. Memᴰ.head refl,
                  λ cookie. absurd (false≢true (sym other ∙ cookie)),
                ),
                clean,
              ))))

module _ (hash : Text → Text) (now : ℕ) (t : AuthTables) where
  -- Every header of a request that goes to an app is one that the router adds, or one that the client
  -- sent and that has no name of the router's own headers. A client's Authorization header goes along
  -- only where no bearer token of the request is a credential of the router. A Cookie header, read as
  -- parts between semicolons less the white space around them, has the cookies of a client's header of
  -- that name in their order, without those of the session.
  pub build_forwarded_request_headers-IsClean :
      (headers : List Header) (excluded : List Text) (extra : List Header) (h : Header)
      → Memᴰ h (build_forwarded_request_headers hash now t headers excluded extra)
      → Memᴰ h extra
        ⊎ ((elem (lower h.0) excluded ≡ false)
            × (is_identity_header h.0 ≡ false)
            × ((lower h.0 == codes "authorization") ≡ true
                → All
                    (λ token. is_openhost_credential hash now token t ≡ false)
                    (get_bearer_tokens headers (codes "Authorization")))
            × ((lower h.0 == codes "cookie") ≡ false → Memᴰ h headers)
            × ((lower h.0 == codes "cookie") ≡ true
                → (value : Text) × Memᴰ (h.0, value) headers
                  × (cookies_of h.1 ≡ filter (λ p. not (is_session_cookie p)) (cookies_of value))))
  unfolding build_forwarded_request_headers carries_openhost_credential
  build_forwarded_request_headers-IsClean headers excluded extra h m =
      let carries = carries_openhost_credential hash now t headers in
      let sanitized = sanitize_forwarded_headers carries headers in
      let allowed : Header → Bool = λ x. not (elem (lower x.0) excluded) in
      elim (mem_append (filter allowed sanitized) extra m) [
        | inr added ↦ inl added
        | inl forwarded ↦
            let (in_sanitized, is_allowed) = mem_of_filter allowed sanitized h forwarded in
            let (plain, kept, sent, cookies) =
              All-mem (IsClean carries headers) sanitized (sanitize-All carries headers)
                in_sanitized in
            inr (
              ground arith,
              plain,
              λ authorization.
                  (any-eq-false_iff (λ token. is_openhost_credential hash now token t)
                      (get_bearer_tokens headers (codes "Authorization"))).0
                    (ground arith),
              sent,
              cookies,
            )
      ]
