-- ===== src/Access/Owner/Verified.antt =====
-- What `verify_owner_auth` of compute_space/src/compute_space/web/auth/auth.py accepts.
use cloud_in_a_bottle.Shared.{
  Bool, List_eq, Option, Option-cases, Result, String, String_eq, Text, ap, arith, codes, false,
  inl, inr, is_some, none, ok, raise, refl, some, sym, true, when_set-eq-some, ℕ, ℕ_eq, ◌==◌, ◌↔◌,
  ◌∙◌, ◌≡◌, ◌≢◌, ◌⊎◌,
}
use cloud_in_a_bottle.Access.Credentials.{
  AuthTables, Accessor, authenticated_user, authenticated_api_key, authenticated_app,
  validate_session_token, validate_api_token, validate_app_token,
}
use cloud_in_a_bottle.Access.Requests.{
  Connection, Url, http, NotAuthorized, not_authorized, header, get_bearer_token_if_set,
  is_safe_for_cookie_auth_http, non_empty,
}
use cloud_in_a_bottle.Access.Owner.{
  is_safe_for_cookie_auth, session_user, bearer_key, bearer_app, authenticate, verify_user,
  verify_accessor, verify_owner_auth, or_else,
}

module _ (urlparse : Text → Option Url) (hash : Text → Text) (now : ℕ) (t : AuthTables) where
  abbrev session_of : Connection → Option Accessor
  session_of = session_user urlparse hash now t

  abbrev key_of : Connection → Option Accessor
  key_of = bearer_key urlparse hash now t

  validate_session_token-user :
      (token : Text) (a : Accessor)
      → validate_session_token hash now token t ≡ some a
      → (id : ℕ) × (name : Text) × (a ≡ authenticated_user id name)
  unfolding validate_session_token
  validate_session_token-user token (authenticated_user id name) h = (id, name, refl)
  validate_session_token-user token authenticated_api_key h = absurd (ground arith)
  validate_session_token-user token (authenticated_app id) h = absurd (ground arith)

  validate_api_token-key :
      (token : Text) (a : Accessor)
      → validate_api_token hash now token t ≡ some a
      → a ≡ authenticated_api_key
  unfolding validate_api_token
  validate_api_token-key token a h = ground arith

  validate_app_token-app :
      (token : Text) (a : Accessor)
      → validate_app_token hash token t ≡ some a
      → (id : String) × (a ≡ authenticated_app id)
  unfolding validate_app_token
  validate_app_token-app token (authenticated_user id name) h = absurd (ground arith)
  validate_app_token-app token authenticated_api_key h = absurd (ground arith)
  validate_app_token-app token (authenticated_app id) h = (id, refl)

  session_user-user :
      (c : Connection) (a : Accessor)
      → session_of c ≡ some a
      → (id : ℕ) × (name : Text) × (a ≡ authenticated_user id name)
  session_user-user c a h =
      let (token, set, valid) =
        when_set-eq-some (non_empty c.session_cookie)
          (λ token. validate_session_token hash now token t) a h in
      validate_session_token-user token a valid

  bearer_key-key : (c : Connection) (a : Accessor) → key_of c ≡ some a → a ≡ authenticated_api_key
  bearer_key-key c a h =
      let (token, set, valid) =
        when_set-eq-some (get_bearer_token_if_set c) (λ token. validate_api_token hash now token t)
          a h in
      validate_api_token-key token a valid

  bearer_app-app :
      (c : Connection) (a : Accessor)
      → bearer_app urlparse hash now t c ≡ some a
      → (id : String) × (a ≡ authenticated_app id)
  bearer_app-app c a h =
      let (token, set, valid) =
        when_set-eq-some (get_bearer_token_if_set c) (λ token. validate_app_token hash token t) a
          h in
      validate_app_token-app token a valid

  key_of_set : (c : Connection) → is_some (key_of c) ≡ true → key_of c ≡ some authenticated_api_key
  key_of_set c h = elim (Option-cases (key_of c)) [
    | inl absent ↦ absurd (ground arith)
    | inr (a, key) ↦ key ∙ ap some (bearer_key-key c a key)
  ]

  -- The outcome of `verify_user` by what `is_safe_for_cookie_auth` did.
  verify_user_iff :
      (c : Connection) (safe : Result NotAuthorized Bool)
      → (verify_user urlparse hash now t c safe ≡ ok tt)
        ↔ ((safe ≡ ok true) ⊎ (is_some (key_of c) ≡ true))
  unfolding verify_user
  verify_user_iff c (ok true) = (λ _. inl refl, λ _. refl)
  verify_user_iff c (ok false) = ground arith
  verify_user_iff c (raise x) = ground arith

  verify_of_session :
      (c : Connection) (allow : Bool) (id : ℕ) (name : Text)
      → session_of c ≡ some (authenticated_user id name)
      → verify_owner_auth urlparse hash now t c allow
        ≡ verify_user urlparse hash now t c (is_safe_for_cookie_auth urlparse c allow)
  unfolding verify_owner_auth verify_accessor authenticate
  verify_of_session c allow id name h =
      ap
        (λ o.
          verify_accessor urlparse hash now t c allow
            (or_else o (or_else (key_of c) (bearer_app urlparse hash now t c))))
        h

  verify_of_key :
      (c : Connection) (allow : Bool)
      → session_of c ≡ none
      → key_of c ≡ some authenticated_api_key
      → verify_owner_auth urlparse hash now t c allow ≡ ok tt
  unfolding verify_owner_auth verify_accessor authenticate
  verify_of_key c allow h k =
      ap
        (λ o.
          verify_accessor urlparse hash now t c allow
            (or_else o (or_else (key_of c) (bearer_app urlparse hash now t c))))
        h
      ∙ ap
          (λ o.
            verify_accessor urlparse hash now t c allow
              (or_else o (bearer_app urlparse hash now t c)))
          k

  verify_of_nobody :
      (c : Connection) (allow : Bool)
      → session_of c ≡ none
      → key_of c ≡ none
      → verify_owner_auth urlparse hash now t c allow ≡ raise not_authorized
  unfolding verify_owner_auth verify_accessor authenticate
  verify_of_nobody c allow h k =
      ap
        (λ o.
          verify_accessor urlparse hash now t c allow
            (or_else o (or_else (key_of c) (bearer_app urlparse hash now t c))))
        h
      ∙ ap
          (λ o.
            verify_accessor urlparse hash now t c allow
              (or_else o (bearer_app urlparse hash now t c)))
          k
      ∙ elim (Option-cases (bearer_app urlparse hash now t c)) [
        | inl absent ↦ ap (verify_accessor urlparse hash now t c allow) absent
        | inr (a, some_app) ↦
            let (id, is_app) = bearer_app-app c a some_app in
            ap (verify_accessor urlparse hash now t c allow) (some_app ∙ ap some is_app)
      ]

  none-ne-some : {a : Accessor} → none ≢ some a
  none-ne-some h = cc

  -- A request is the owner's exactly when its cookie is that of a session which has not expired and
  -- the cookie counts on this request, or when its bearer token is an API key that has not expired.
  pub verify_owner_auth_iff :
      (c : Connection) (allow_cross_site_navigation : Bool)
      → (verify_owner_auth urlparse hash now t c allow_cross_site_navigation ≡ ok tt) ↔ (
          ((id : ℕ) × (name : Text) × (session_user urlparse hash now t c
              ≡ some (authenticated_user id name))
            × (is_safe_for_cookie_auth urlparse c allow_cross_site_navigation ≡ ok true))
          ⊎ (bearer_key urlparse hash now t c ≡ some authenticated_api_key))
  verify_owner_auth_iff c allow = elim (Option-cases (session_of c)) [
    | inr (a, session) ↦
        let (id, name, is_user) = session_user-user c a session in
        let accepted = verify_user_iff c (is_safe_for_cookie_auth urlparse c allow) in
        let is = verify_of_session c allow id name (session ∙ ap some is_user) in
        (
          λ h. elim (accepted.0 (sym is ∙ h)) [
            | inl safe ↦ inl (id, name, session ∙ ap some is_user, safe)
            | inr key ↦ inr (key_of_set c key)
          ],
          λ w.
              is
              ∙ accepted.1
                  (elim w [ inl (i, n, s, safe) ↦ inl safe | inr key ↦ inr (ap is_some key) ]),
        )
    | inl nobody ↦ (
      λ h. elim (Option-cases (key_of c)) [
        | inl absent ↦ absurd (ground (arith, verify_of_nobody c allow nobody absent, h))
        | inr (a, key) ↦ inr (key ∙ ap some (bearer_key-key c a key))
      ],
      λ w. elim w [
        | inl (i, n, s, safe) ↦ absurd (none-ne-some (sym nobody ∙ s))
        | inr key ↦ verify_of_key c allow nobody key
      ],
    )
  ]

  -- The script of another app or site cannot write in the owner's name: where the browser says that a
  -- request with a method other than GET and HEAD comes from another origin, and the request bears no
  -- API key, it is not the owner's, whatever cookie it carries.
  pub verify_owner_auth_cross_origin :
      (c : Connection) (allow_cross_site_navigation : Bool) (site : Text)
      → c.scope_type ≡ http
      → header (codes "Sec-Fetch-Site") c.headers ≡ some site
      → (site == codes "same-origin") ≡ false
      → (site == codes "none") ≡ false
      → (c.method == codes "GET") ≡ false
      → (c.method == codes "HEAD") ≡ false
      → bearer_key urlparse hash now t c ≡ none
      → verify_owner_auth urlparse hash now t c allow_cross_site_navigation ≢ ok tt
  unfolding is_safe_for_cookie_auth is_safe_for_cookie_auth_http
  verify_owner_auth_cross_origin c allow site is_http fetch_site other typed get head no_key h =
      elim ((verify_owner_auth_iff c allow).0 h) [
        | inr key ↦ cc
        | inl (id, name, session, safe) ↦ ground arith
      ]
