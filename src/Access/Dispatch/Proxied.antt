-- ===== src/Access/Dispatch/Proxied.antt =====
-- What of the requests that SubdomainProxyMiddleware of
-- compute_space/src/compute_space/web/middleware/subdomain_proxy.py sees reaches an app.
use mathlib.Core.Path.{subst}
use cloud_in_a_bottle.Shared.{
  All, All-append, Bool-cases, List, List_eq, Memᴰ, Option, Option-cases, Result, String_eq, Text,
  [], arith, codes, false, inl, inr, none, ok, raise, refl, some, sym, true, ℕ, ℕ_eq, ◌++◌, ◌==◌,
  ◌∷◌, ◌≡◌, ◌≢◌, ◌⊎◌,
}
use cloud_in_a_bottle.Schema.{App}
use cloud_in_a_bottle.Domains.{Domain, match}
use cloud_in_a_bottle.Access.Credentials.{AuthTables}
use cloud_in_a_bottle.Access.Requests.{Connection, Url, NotAuthorized, non_empty}
use cloud_in_a_bottle.Access.Owner.{verify_owner_auth, get_app_from_hostname}
use cloud_in_a_bottle.Access.Dispatch.{
  proxied, Header, is_owner_header, is_coming_up, forward, is_public, as_anonymous, to_app, in_zone,
  on_host, dispatch, forwarded_headers, stash_zone, resolve_forwarded_for, for_headers,
}

-- No header has the name of the owner's.
abbrev IsAnonymous : List Header → Type 0
IsAnonymous = All (λ (h : Header). (h.0 == codes "X-OpenHost-Is-Owner") ≡ false)

for_headers-IsAnonymous : (f : Option Text) → IsAnonymous (for_headers f)
for_headers-IsAnonymous none = tt
for_headers-IsAnonymous (some f) = (refl, tt)

mem_snoc : (xs ys : List Header) → Memᴰ is_owner_header (xs ++ is_owner_header ∷ ys)
mem_snoc [] ys = Memᴰ.head refl
mem_snoc (x ∷ xs) ys = Memᴰ.tail (mem_snoc xs ys)

mem_of_append : (xs ys : List Header) → Memᴰ is_owner_header ((xs ++ is_owner_header ∷ []) ++ ys)
mem_of_append [] ys = Memᴰ.head refl
mem_of_append (x ∷ xs) ys = Memᴰ.tail (mem_of_append xs ys)

result-cases :
    (r : Result {0, 0} NotAuthorized Unit)
    → ((u : Unit {0}) × (r ≡ ok u)) ⊎ ((e : NotAuthorized) × (r ≡ raise e))
result-cases (ok u) = inl (u, refl)
result-cases (raise e) = inr (e, refl)

forwarded_headers-IsAnonymous :
    (c : Connection) (zone : Domain) (netloc : Text) → IsAnonymous (forwarded_headers c zone netloc)
unfolding forwarded_headers
forwarded_headers-IsAnonymous c zone netloc =
    (refl, (refl, (refl, for_headers-IsAnonymous (non_empty (resolve_forwarded_for c)))))

forward_lem :
    (c : Connection) (netloc : Text) (a : App) (headers sent : List Header) (port : ℕ)
    → forward c netloc a headers ≡ proxied port sent
    → (port ≡ a.local_port)
      × (is_coming_up a.status ≡ false)
      × ((sent ≡ headers) ⊎ (sent ≡ headers ++ (codes "Host", netloc) ∷ []))
unfolding forward
forward_lem c netloc a headers sent port h = elim (Bool-cases (is_coming_up a.status)) [
  | inl coming ↦ absurd (ground arith)
  | inr up ↦ ground arith
]

-- What goes to an app with the headers of a list has them still.
IsAnonymous-sent :
    (headers sent : List Header) (netloc : Text)
    → (sent ≡ headers) ⊎ (sent ≡ headers ++ (codes "Host", netloc) ∷ [])
    → IsAnonymous headers
    → IsAnonymous sent
IsAnonymous-sent headers sent netloc (inl e) h = subst IsAnonymous (sym e) h
IsAnonymous-sent headers sent netloc (inr e) h = subst IsAnonymous (sym e) (
    All-append (λ (x : Header). (x.0 == codes "X-OpenHost-Is-Owner") ≡ false) headers
      ((codes "Host", netloc) ∷ []) h (refl, tt))

mem-sent :
    (headers sent : List Header) (netloc : Text)
    → (sent ≡ (headers ++ is_owner_header ∷ []))
      ⊎ (sent ≡ (headers ++ is_owner_header ∷ []) ++ (codes "Host", netloc) ∷ [])
    → Memᴰ is_owner_header sent
mem-sent headers sent netloc (inl e) = subst (Memᴰ is_owner_header) (sym e) (mem_snoc headers [])
mem-sent headers sent netloc (inr e) =
    subst (Memᴰ is_owner_header) (sym e) (mem_of_append headers ((codes "Host", netloc) ∷ []))

module _ (unquote : Text → Option Text) (urlparse : Text → Option Url) (hash : Text → Text)
    (now : ℕ) (t : AuthTables) where
  -- The owner's request, marked as such, or anybody's on a public path, without the mark.
  abbrev pub IsAllowed : Connection → Domain → App → List Header → Type 0
  IsAllowed c zone a sent =
      ((verify_owner_auth urlparse hash now t (stash_zone zone c) true ≡ ok tt)
        × Memᴰ is_owner_header sent)
      ⊎ ((verify_owner_auth urlparse hash now t (stash_zone zone c) true ≢ ok tt)
          × (is_public unquote a c.raw_path ≡ true)
          × All (λ (h : Header). (h.0 == codes "X-OpenHost-Is-Owner") ≡ false) sent)

  to_app_lem :
      (c : Connection) (netloc : Text) (zone : Domain) (a : App) (port : ℕ) (sent : List Header)
      → to_app unquote urlparse hash now t (stash_zone zone c) netloc zone a ≡ proxied port sent
      → (port ≡ a.local_port) × (is_coming_up a.status ≡ false) × IsAllowed c zone a sent
  unfolding to_app as_anonymous
  to_app_lem c netloc zone a port sent h =
      let s = stash_zone zone c in
      let headers = forwarded_headers s zone netloc in
      elim (result-cases (verify_owner_auth urlparse hash now t s true)) [
        | inl (u, done) ↦
            let (to_port, up, are) =
              forward_lem s netloc a (headers ++ is_owner_header ∷ []) sent port (ground arith) in
            (to_port, up, inl (done, mem-sent headers sent netloc are))
        | inr (e, refused) ↦ elim (Bool-cases (is_public unquote a c.raw_path)) [
          | inr private ↦ absurd (ground arith)
          | inl public ↦
              let (to_port, up, are) = forward_lem s netloc a headers sent port (ground arith) in
              (
                to_port,
                up,
                inr (
                  λ k. (ground (arith, refused, k)),
                  public,
                  IsAnonymous-sent headers sent netloc are
                      (forwarded_headers-IsAnonymous s zone netloc),
                ),
              )
        ]
      ]

  -- A request that reaches an app came on a host name of the app and goes to its port, while the app is
  -- not coming up. It is the owner's and marked as such, or its path is public and it does not carry
  -- the owner's mark.
  pub dispatch-proxied :
      (c : Connection) (domains : List Domain) (port : ℕ) (sent : List Header)
      → dispatch unquote urlparse hash now t c domains ≡ proxied port sent
      → (netloc : Text) × (zone : Domain) × (a : App) × (c.netloc ≡ some netloc)
        × (match domains netloc ≡ some zone)
        × (get_app_from_hostname netloc domains t.apps ≡ some a)
        × (port ≡ a.local_port)
        × (is_coming_up a.status ≡ false)
        × IsAllowed c zone a sent
  unfolding dispatch on_host in_zone
  dispatch-proxied c domains port sent h = elim (Option-cases c.netloc) [
    | inl malformed ↦ absurd (ground arith)
    | inr (netloc, named) ↦ elim (Option-cases (match domains netloc)) [
      | inl unmatched ↦ absurd (ground arith)
      | inr (zone, matched) ↦ elim (Option-cases (get_app_from_hostname netloc domains t.apps)) [
        | inl no_app ↦ absurd (ground arith)
        | inr (a, found) ↦
            let reached : to_app unquote urlparse hash now t (stash_zone zone c) netloc zone a
                ≡ proxied port sent =
              ground arith in
            let (to_port, up, allowed) = to_app_lem c netloc zone a port sent reached in
            (netloc, zone, a, named, matched, found, to_port, up, allowed)
      ]
    ]
  ]
