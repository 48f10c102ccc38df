-- ===== src/Services/Incumbent.antt =====
-- default_provider_id_for_service and _incumbent_provider_id of
-- compute_space/src/compute_space/core/service_interface/services.py: of the apps that provide a
-- service which nobody has chosen between, the one installed longest ago serves it.
use mathlib.Core.List.Memᴰ
use mathlib.Core.Path.{subst}
use cloud_in_a_bottle.Shared.{
  ==_iff, All, All-mem, All-of_mem, Bool, List, List_eq, Memᴰ, Option, Option-cases, Pair_order,
  Result, String, String_eq, Text, Text_order, [], arith, bind-eq-ok, codes, false, filter_of_mem,
  if◌then◌else◌, inl, inr, ltb, max_from, max_from-greatest, max_from-mem, mem-cons, mem_of_filter,
  none, ok, pair_lt, raise, refl, some, ℕ, ℕ_eq, ◌==◌, ◌>>=◌, ◌∙◌, ◌∷◌, ◌≡◌, ◌≤◌,
}
use cloud_in_a_bottle.Schema.{App}
use cloud_in_a_bottle.Services.{
  Packaging, ProviderRow, Tables, ServiceError, invalid_version, router_app_id, builtin_by_url,
  providers_of, oldest_from, tied, default_row,
}

module _ (packaging : Packaging) where
  open packaging use {
    Version, SpecifierSet, parse_version, parse_specifier, version_order, contains,
  }

  abbrev pub Key : Type 0
  Key = Version × Text

  -- The keys of the rows; `Version` raises on a text that is no version.
  unfoldable pub keyed : List (ProviderRow × App) → Result ServiceError (List (Key × String))
  keyed [] = ok []
  keyed ((r, a) ∷ rows) =
      let rest = keyed rows in
      elim (parse_version r.service_version) [
        | none ↦ raise invalid_version
        | some v ↦ rest >>= λ keys. ok (((v, codes r.app_id), r.app_id) ∷ keys)
      ]

  unfoldable pub greatest : List (Key × String) → Option String
  greatest [] = none
  greatest (k ∷ keys) =
      some
        (max_from ⦃by_order = Pair_order ⦃on_first = version_order⦄⦄ (λ (c : Key × String). c.0) k
          keys).1

  unfoldable pub incumbent_of : List (ProviderRow × App) → Result ServiceError (Option String)
  incumbent_of [] = ok none
  incumbent_of ((r, a) ∷ rows) =
      keyed (tied (oldest_from a.created_at rows) ((r, a) ∷ rows)) >>= λ keys. ok (greatest keys)

  unfoldable pub incumbent_provider_id : String → Tables → Result ServiceError (Option String)
  incumbent_provider_id service_url t = incumbent_of (providers_of service_url t)

  unfoldable pub default_provider_id_for_service :
      String → Tables → Result ServiceError (Option String)
  default_provider_id_for_service service_url t = elim (default_row service_url t) [
    | some row ↦ ok (some row.app_id)
    | none ↦ elim (builtin_by_url service_url) [
      | some b ↦ ok (some router_app_id)
      | none ↦ incumbent_provider_id service_url t
    ]
  ]

  -- A row of the tied ones, with its key, that no tied row's key passes.
  abbrev pub IsIncumbent : String → List (ProviderRow × App) → Type 0
  IsIncumbent app_id rows =
      (c : ProviderRow × App) × (v : Version) × Memᴰ c rows
      × (c.0.app_id ≡ app_id)
      × (parse_version c.0.service_version ≡ some v)
      × All
          (λ (d : ProviderRow × App).
            (c.1.created_at ≤ d.1.created_at)
            × ((w : Version)
                → d.1.created_at ≡ c.1.created_at
                → parse_version d.0.service_version ≡ some w
                → pair_lt ⦃on_first = version_order⦄ (v, codes c.0.app_id) (w, codes d.0.app_id)
                  ≡ false))
          rows

  -- The greatest of the keys is one of them.
  greatest-top :
      (keys : List (Key × String)) (app_id : String)
      → greatest keys ≡ some app_id
      → (k : Key × String) × Memᴰ k keys
        × (k.1 ≡ app_id)
        × ((other : Key × String)
            → Memᴰ other keys
            → pair_lt ⦃on_first = version_order⦄ k.0 other.0 ≡ false)
  unfolding greatest
  greatest-top [] app_id h = cc
  greatest-top (k ∷ keys) app_id h =
      let key : Key × String → Key = λ c. c.0 in
      (
        max_from ⦃by_order = Pair_order ⦃on_first = version_order⦄⦄ key k keys,
        max_from-mem ⦃by_order = Pair_order ⦃on_first = version_order⦄⦄ key k keys,
        cc,
        max_from-greatest ⦃by_order = Pair_order ⦃on_first = version_order⦄⦄ key k keys,
      )

  oldest_from-le :
      (oldest : ℕ) (rows : List (ProviderRow × App))
      → (oldest_from oldest rows ≤ oldest)
        × All (λ (c : ProviderRow × App). oldest_from oldest rows ≤ c.1.created_at) rows
  unfolding oldest_from
  oldest_from-le oldest [] = (omega arith, tt)
  oldest_from-le oldest ((r, a) ∷ rows) =
      let next = if ltb a.created_at oldest then a.created_at else oldest in
      let (low, lower_all) = oldest_from-le next rows in (ground arith, (ground arith, lower_all))

  keyed-cons :
      (r : ProviderRow) (a : App) (rows : List (ProviderRow × App)) (keys : List (Key × String))
      → keyed ((r, a) ∷ rows) ≡ ok keys
      → (v : Version) × (later : List (Key × String)) × (parse_version r.service_version ≡ some v)
        × (keyed rows ≡ ok later)
        × (keys ≡ ((v, codes r.app_id), r.app_id) ∷ later)
  unfolding keyed
  keyed-cons r a rows keys h = elim (Option-cases (parse_version r.service_version)) [
    | inl bad ↦ absurd (ground arith)
    | inr (v, is) ↦
        let (later, done, same) =
          bind-eq-ok (keyed rows) (λ ks. ok (((v, codes r.app_id), r.app_id) ∷ ks))
            (rw (is, keyed) at h) in
        (v, later, is, done, cc)
  ]

  keyed-nil : (keys : List (Key × String)) → keyed [] ≡ ok keys → keys ≡ []
  unfolding keyed
  keyed-nil keys h = cc

  mem_of_keyed :
      (rows : List (ProviderRow × App)) (keys : List (Key × String)) (k : Key × String)
      → keyed rows ≡ ok keys
      → Memᴰ k keys
      → (c : ProviderRow × App) × (v : Version) × Memᴰ c rows
        × (parse_version c.0.service_version ≡ some v)
        × (k ≡ ((v, codes c.0.app_id), c.0.app_id))
  mem_of_keyed [] keys k h m = absurd (Memᴰ.not-nil (subst (Memᴰ k) (keyed-nil keys h) m))
  mem_of_keyed ((r, a) ∷ rows) keys k h m =
      let (v, later, is, done, same) = keyed-cons r a rows keys h in
      elim (mem-cons k later (subst (Memᴰ k) same m)) [
        | inl e ↦ ((r, a), v, Memᴰ.head refl, is, e)
        | inr n ↦
            let (c, w, in_rows, is_w, eq) = mem_of_keyed rows later k done n in
            (c, w, Memᴰ.tail in_rows, is_w, eq)
      ]

  keyed_of_mem :
      (rows : List (ProviderRow × App)) (keys : List (Key × String)) (c : ProviderRow × App)
      (v : Version)
      → keyed rows ≡ ok keys
      → Memᴰ c rows
      → parse_version c.0.service_version ≡ some v
      → Memᴰ ((v, codes c.0.app_id), c.0.app_id) keys
  keyed_of_mem [] keys c v h m is = absurd (Memᴰ.not-nil m)
  keyed_of_mem ((r, a) ∷ rows) keys c v h m is =
      let (w, later, is_w, done, same) = keyed-cons r a rows keys h in
      elim m [
        | Memᴰ.head e ↦
            let same_row : c.0 ≡ r = cc in
            let same_version : v ≡ w = ground arith in
            rw same (Memᴰ.head (rw same_row (rw same_version refl)))
        | Memᴰ.tail n ↦ rw same (Memᴰ.tail (keyed_of_mem rows later c v done n is))
      ]

  incumbent_of-IsIncumbent :
      (rows : List (ProviderRow × App)) (app_id : String)
      → incumbent_of rows ≡ ok (some app_id)
      → IsIncumbent app_id rows
  unfolding incumbent_of tied
  incumbent_of-IsIncumbent [] app_id h = cc
  incumbent_of-IsIncumbent ((r, a) ∷ others) app_id h =
      let rows = (r, a) ∷ others in
      let oldest = oldest_from a.created_at others in
      let at_oldest : ProviderRow × App → Bool = λ c. c.1.created_at == oldest in
      let (keys, done, last) = bind-eq-ok (keyed (tied oldest rows)) (λ ks. ok (greatest ks)) h in
      let (k, in_keys, id, top) = greatest-top keys app_id (cc) in
      let (c, v, in_tied, is_v, key) = mem_of_keyed (tied oldest rows) keys k done in_keys in
      let (in_rows, is_oldest) = mem_of_filter at_oldest rows c in_tied in
      let c_oldest : c.1.created_at ≡ oldest = (==_iff c.1.created_at oldest).0 is_oldest in
      let no_older : All (λ (d : ProviderRow × App). oldest ≤ d.1.created_at) rows =
        oldest_from-le a.created_at others in
      (
        c,
        v,
        in_rows,
        cc,
        is_v,
        All-of_mem
            (λ (d : ProviderRow × App).
              (c.1.created_at ≤ d.1.created_at)
              × ((w : Version)
                  → d.1.created_at ≡ c.1.created_at
                  → parse_version d.0.service_version ≡ some w
                  → pair_lt ⦃on_first = version_order⦄ (v, codes c.0.app_id) (w, codes d.0.app_id)
                    ≡ false))
            rows
            (λ d m. (
              omega (
                arith,
                c_oldest,
                All-mem (λ (d : ProviderRow × App). oldest ≤ d.1.created_at) rows no_older m,
              ),
              λ w same is_w.
                  let in_tied_d =
                    filter_of_mem at_oldest rows d m
                      ((==_iff d.1.created_at oldest).1 (same ∙ c_oldest)) in
                  subst
                    (λ (x : Key × String).
                      pair_lt ⦃on_first = version_order⦄ x.0 (w, codes d.0.app_id) ≡ false)
                    key
                    (top ((w, codes d.0.app_id), d.0.app_id)
                      (keyed_of_mem (tied oldest rows) keys d w done in_tied_d is_w)),
            )),
      )

  -- The app that serves a service which nobody has chosen between: it provides the service, no
  -- provider was installed before it, and of those installed at the same time none has a greater
  -- version, nor an equal one and a greater id.
  pub incumbent_provider_id-IsIncumbent :
      (service_url : String) (t : Tables) (app_id : String)
      → incumbent_provider_id service_url t ≡ ok (some app_id)
      → IsIncumbent app_id (providers_of service_url t)
  unfolding incumbent_provider_id
  incumbent_provider_id-IsIncumbent service_url t app_id h =
      incumbent_of-IsIncumbent (providers_of service_url t) app_id h
