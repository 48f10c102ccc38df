-- ===== src/Services/Resolution/Reached.antt =====
-- Where the calls go that resolve_provider of
-- compute_space/src/compute_space/core/service_interface/resolve.py lets through.
use cloud_in_a_bottle.Shared.{
  ==_iff, Bool, Bool-cases, List, List_eq, Memᴰ, Option, Option-cases, String, String_eq, Text, [],
  ap, arith, bind-eq-ok, filter, find?-eq-some, inl, inr, mem-cons, mem_of_filter, none, ok, refl,
  some, sym, true, ℕ_eq, ◌&&◌, ◌==◌, ◌>>=◌, ◌↔◌, ◌∙◌, ◌∷◌, ◌≡◌, ◌≢◌, ◌⊎◌,
}
use cloud_in_a_bottle.Schema.{App, AppStatus}
use cloud_in_a_bottle.Services.{
  app_by_id, Packaging, ProviderRow, Tables, router_app_id, builtin_by_url, BuiltinService,
  join_apps, ResolvedProvider, is_running, local_port, in_process,
}
use mathlib.Core.List.Memᴰ
use mathlib.Core.Path.{subst}
use mathlib.Core.Bool.{false≢true}
use cloud_in_a_bottle.Services.Incumbent.{default_provider_id_for_service}
use cloud_in_a_bottle.Services.Joined.{join_apps-none, join_apps-some}
use cloud_in_a_bottle.Services.Resolution.{
  provider_row, builtin_provider, app_provider, check_version, target_app_id, resolve_builtin,
  resolve_app, resolve_target, resolve_provider,
}

mem_of_join_apps :
    (apps : List App) (rows : List ProviderRow) (r : ProviderRow) (a : App)
    → Memᴰ (r, a) (join_apps apps rows)
    → Memᴰ r rows × (app_by_id r.app_id apps ≡ some a)
unfolding join_apps
mem_of_join_apps apps [] r a m = absurd (Memᴰ.not-nil m)
mem_of_join_apps apps (q ∷ rows) r a m = elim (Option-cases (app_by_id q.app_id apps)) [
  | inl absent ↦
      let (later, found) =
        mem_of_join_apps apps rows r a
          (subst (Memᴰ (r, a)) (join_apps-none apps q rows absent) m) in
      (Memᴰ.tail later, found)
  | inr (b, is) ↦
      elim (mem-cons (r, a) (join_apps apps rows)
        (subst (Memᴰ (r, a)) (join_apps-some apps q rows b is) m)) [
          | inl e ↦
              let same_row : r ≡ q = ap (λ (c : ProviderRow × App). c.0) e in
              let same_app : a ≡ b = ap (λ (c : ProviderRow × App). c.1) e in
              (
                Memᴰ.head same_row,
                ap (λ (x : ProviderRow). app_by_id x.app_id apps) same_row
                    ∙ is
                    ∙ ap some (sym same_app),
              )
          | inr later ↦
              let (in_rows, found) = mem_of_join_apps apps rows r a later in
              (Memᴰ.tail in_rows, found)
        ]
]

is_running_lem : (s : AppStatus) → is_running s ≡ true → s ≡ AppStatus.running
unfolding is_running
is_running_lem AppStatus.building h = cc
is_running_lem AppStatus.starting h = cc
is_running_lem AppStatus.running h = refl
is_running_lem AppStatus.stopped h = cc
is_running_lem AppStatus.error h = cc
is_running_lem AppStatus.removing h = cc

module _ (packaging : Packaging) where
  open packaging use {SpecifierSet, parse_version, parse_specifier, contains}

  -- A version that the specifier admits.
  abbrev pub IsAdmitted : Text → SpecifierSet → Type 0
  IsAdmitted version spec =
      (v : packaging.Version) × (parse_version version ≡ some v) × (contains spec v ≡ true)

  check_version_iff :
      (version : Text) (spec : SpecifierSet)
      → (check_version packaging version spec ≡ ok tt) ↔ IsAdmitted version spec
  unfolding check_version
  check_version_iff version spec = elim (Option-cases (parse_version version)) [
    | inl bad ↦ ground arith
    | inr (v, is) ↦ ground arith
  ]

  -- Where a call may go: into the router, to its own implementation, or to the port of an app that
  -- provides the service and runs.
  abbrev pub IsReached : String → SpecifierSet → Tables → ResolvedProvider → Type 0
  IsReached service_url spec t p =
      IsAdmitted p.service_version spec
      × (((p.app_id ≡ router_app_id)
            × ((b : BuiltinService) × (builtin_by_url service_url ≡ some b)
                × (p.service_version ≡ b.version)
                × (p.target ≡ in_process b.app)))
          ⊎ ((r : ProviderRow) × (a : App) × Memᴰ r t.providers
              × Memᴰ a t.apps
              × (r.service_url ≡ service_url)
              × (r.app_id ≡ p.app_id)
              × (a.app_id ≡ p.app_id)
              × (a.status ≡ AppStatus.running)
              × (p.service_version ≡ r.service_version)
              × (p.target ≡ local_port a.local_port)))

  check_version_then :
      (version : Text) (spec : SpecifierSet) (answer p : ResolvedProvider)
      → (check_version packaging version spec >>= λ _. ok answer) ≡ ok p
      → IsAdmitted version spec × (answer ≡ p)
  check_version_then version spec answer p h =
      let (u, checked, same) =
        bind-eq-ok (check_version packaging version spec) (λ _. ok answer) h in
      ((check_version_iff version spec).0 checked, ground arith)

  resolve_builtin-IsReached :
      (service_url : String) (spec : SpecifierSet) (t : Tables) (p : ResolvedProvider)
      → resolve_builtin packaging service_url spec ≡ ok p
      → IsReached service_url spec t p × (p.app_id ≡ router_app_id)
  unfolding resolve_builtin
  resolve_builtin-IsReached service_url spec t p h =
      elim (Option-cases (builtin_by_url service_url)) [
        | inl external ↦ absurd (ground arith)
        | inr (b, builtin) ↦
            let (admitted, same) =
              check_version_then b.version spec (builtin_provider service_url b) p
                (rw (builtin, resolve_builtin) at h) in
            rw (← same) ((admitted, inl (refl, (b, builtin, refl, refl))), refl)
      ]

  -- The row of a provider, and the app of the row.
  provider_row_lem :
      (service_url app_id : String) (t : Tables) (r : ProviderRow) (a : App)
      → provider_row service_url app_id t ≡ some (r, a)
      → Memᴰ r t.providers
        × Memᴰ a t.apps
        × (r.service_url ≡ service_url)
        × (r.app_id ≡ app_id)
        × (a.app_id ≡ app_id)
  unfolding provider_row app_by_id
  provider_row_lem service_url app_id t r a h =
      let wanted : ProviderRow → Bool =
        λ x. (x.service_url == service_url) && (x.app_id == app_id) in
      let m =
        find?-eq-some (λ (c : ProviderRow × App). true)
          (join_apps t.apps (filter wanted t.providers)) (r, a) h in
      let (in_rows, found) = mem_of_join_apps t.apps (filter wanted t.providers) r a m.0 in
      let (in_providers, is_wanted) = mem_of_filter wanted t.providers r in_rows in
      let (in_apps, same) = find?-eq-some (λ (b : App). b.app_id == r.app_id) t.apps a found in
      (
        in_providers,
        in_apps,
        (==_iff r.service_url service_url).0 (ground arith),
        (==_iff r.app_id app_id).0 (ground arith),
        (==_iff a.app_id r.app_id).0 same ∙ (==_iff r.app_id app_id).0 (ground arith),
      )

  resolve_app-IsReached :
      (service_url app_id : String) (spec : SpecifierSet) (t : Tables) (p : ResolvedProvider)
      → resolve_app packaging service_url app_id spec t ≡ ok p
      → IsReached service_url spec t p × (p.app_id ≡ app_id)
  unfolding resolve_app is_running
  resolve_app-IsReached service_url app_id spec t p h =
      elim (Option-cases (provider_row service_url app_id t)) [
        | inl absent ↦ absurd (ground arith)
        | inr ((r, a), row) ↦ elim (Bool-cases (is_running a.status)) [
          | inr idle ↦ absurd (ground arith)
          | inl runs ↦
              let (admitted, same) =
                check_version_then r.service_version spec (app_provider service_url app_id r a) p
                  (ground arith) in
              let (in_providers, in_apps, url, id, a_id) =
                provider_row_lem service_url app_id t r a row in
              rw (← same) (
                (
                  admitted,
                  inr (
                    r,
                    a,
                    in_providers,
                    in_apps,
                    url,
                    id,
                    a_id,
                    is_running_lem a.status runs,
                    refl,
                    refl,
                  ),
                ),
                refl,
              )
        ]
      ]

  -- The provider that the caller pinned, where the id is not empty, and else the default one.
  abbrev pub IsChosen : String → Option String → Tables → String → Type 0
  IsChosen service_url pinned t app_id =
      ((pinned ≡ some app_id) × (app_id ≢ ""))
      ⊎ (((pinned ≡ none) ⊎ (pinned ≡ some ""))
          × (default_provider_id_for_service packaging service_url t ≡ ok (some app_id)))

  target_app_id-IsChosen :
      (service_url : String) (pinned : Option String) (t : Tables) (app_id : String)
      → target_app_id packaging service_url pinned t ≡ ok (some app_id)
      → IsChosen service_url pinned t app_id
  unfolding target_app_id
  target_app_id-IsChosen service_url none t app_id h = inr (inl refl, h)
  target_app_id-IsChosen service_url (some id) t app_id h = elim (Bool-cases (id == "")) [
    | inl empty ↦ inr (inr (ap some ((==_iff id "").0 empty)), rw empty at h)
    | inr named ↦
        let same : id ≡ app_id = ground arith in
        inl (ap some same, λ blank. false≢true (sym named ∙ (==_iff id "").1 (same ∙ blank)))
  ]

  -- A call of a service that is let through goes to the provider that the caller pinned by an id
  -- that is not empty, and to the default one where the caller pinned none: the router's own implementation, or the port of an app that provides the service and
  -- runs. The version that this provider states is one that the specifier admits.
  pub resolve_provider-IsReached :
      (service_url : String) (version_specifier : Text) (t : Tables) (pinned : Option String)
      (p : ResolvedProvider)
      → resolve_provider packaging service_url version_specifier t pinned ≡ ok p
      → (spec : SpecifierSet) × (parse_specifier version_specifier ≡ some spec)
        × IsChosen service_url pinned t p.app_id
        × IsReached service_url spec t p
  unfolding resolve_provider resolve_target
  resolve_provider-IsReached service_url version_specifier t pinned p h =
      elim (Option-cases (parse_specifier version_specifier)) [
        | inl bad ↦ absurd (ground arith)
        | inr (spec, is) ↦
            let (target, chosen, reached) =
              bind-eq-ok (target_app_id packaging service_url pinned t)
                (resolve_target packaging service_url spec t) {w = p} (ground arith) in
            elim (Option-cases target) [
              | inl nobody ↦ absurd (ground arith)
              | inr (app_id, some_app) ↦
                  let (goes, same) : IsReached service_url spec t p × (p.app_id ≡ app_id) =
                    elim (Bool-cases (app_id == router_app_id)) [
                      | inl router ↦
                          let (goes, id) =
                            resolve_builtin-IsReached service_url spec t p (ground arith) in
                          (goes, id ∙ sym ((==_iff app_id router_app_id).0 router))
                      | inr app ↦ resolve_app-IsReached service_url app_id spec t p (ground arith)
                    ] in
                  (
                    spec,
                    is,
                    target_app_id-IsChosen service_url pinned t p.app_id
                        (chosen ∙ ap ok (some_app ∙ ap some (sym same))),
                    goes,
                  )
            ]
      ]
