-- ===== src/Services/Joined.antt =====
-- The join of providers with apps: join_apps on tables that grow.
use mathlib.Core.Path.{subst}
use cloud_in_a_bottle.Shared.{
  ==_refl, ==_sym, All, All-mem, List, List_eq, Option-cases, String, String_eq, [], ap, arith,
  false, find?-eq-some, inl, inr, none, refl, some, sym, ℕ_eq, ◌++◌, ◌==◌, ◌∙◌, ◌∷◌, ◌≡◌,
}
use cloud_in_a_bottle.Schema.{App}
use cloud_in_a_bottle.Services.{ProviderRow, app_by_id, join_apps}

-- Rows of the app alone.
abbrev pub IsOf : String → List ProviderRow → Type 0
IsOf app_id = All (λ (r : ProviderRow). r.app_id ≡ app_id)

abbrev pub IsOfOthers : String → List ProviderRow → Type 0
IsOfOthers app_id = All (λ (r : ProviderRow). (r.app_id == app_id) ≡ false)

pub join_apps-some :
    (apps : List App) (r : ProviderRow) (rows : List ProviderRow) (a : App)
    → app_by_id r.app_id apps ≡ some a
    → join_apps apps (r ∷ rows) ≡ (r, a) ∷ join_apps apps rows
unfolding join_apps
join_apps-some apps r rows a found = ground arith

pub join_apps-none :
    (apps : List App) (r : ProviderRow) (rows : List ProviderRow)
    → app_by_id r.app_id apps ≡ none
    → join_apps apps (r ∷ rows) ≡ join_apps apps rows
unfolding join_apps
join_apps-none apps r rows absent = ground arith

-- The join over the tables with one more app.
pub app_by_id-append :
    (app_id : String) (apps : List App) (a : App)
    → (a.app_id == app_id) ≡ false
    → app_by_id app_id (apps ++ a ∷ []) ≡ app_by_id app_id apps
unfolding app_by_id
app_by_id-append app_id [] a new = ground arith
app_by_id-append app_id (b ∷ apps) a new = ground (arith, app_by_id-append app_id apps a new)

pub app_by_id_new :
    (apps : List App) (a : App)
    → All (λ (b : App). (b.app_id == a.app_id) ≡ false) apps
    → app_by_id a.app_id (apps ++ a ∷ []) ≡ some a
unfolding app_by_id
app_by_id_new [] a h = ground (arith, ==_refl a.app_id)
app_by_id_new (b ∷ apps) a (hb, h) = ground (arith, app_by_id_new apps a h)

pub join_apps-append :
    (apps : List App) (xs ys : List ProviderRow)
    → join_apps apps (xs ++ ys) ≡ join_apps apps xs ++ join_apps apps ys
unfolding join_apps
join_apps-append apps [] ys = refl
join_apps-append apps (r ∷ xs) ys = ground (arith, join_apps-append apps xs ys)

pub join_apps_old :
    (apps : List App) (a : App) (rows : List ProviderRow)
    → IsOfOthers a.app_id rows
    → join_apps (apps ++ a ∷ []) rows ≡ join_apps apps rows
unfolding join_apps
join_apps_old apps a [] h = refl
join_apps_old apps a (r ∷ rows) (hr, h) = ground (
  arith,
  join_apps_old apps a rows h,
  app_by_id-append r.app_id apps a (==_sym r.app_id a.app_id hr),
)

pub join_apps_new :
    (apps : List App) (a : App) (rows : List ProviderRow)
    → All (λ (b : App). (b.app_id == a.app_id) ≡ false) apps
    → IsOf a.app_id rows
    → All (λ (c : ProviderRow × App). c.1 ≡ a) (join_apps (apps ++ a ∷ []) rows)
unfolding join_apps
join_apps_new apps a [] new h = tt
join_apps_new apps a (r ∷ rows) new (hr, h) =
    let found : app_by_id r.app_id (apps ++ a ∷ []) ≡ some a =
      ap (λ i. app_by_id i (apps ++ a ∷ [])) hr ∙ app_by_id_new apps a new in
    subst (All (λ (c : ProviderRow × App). c.1 ≡ a))
      (sym (join_apps-some (apps ++ a ∷ []) r rows a found)) (refl, join_apps_new apps a rows new h)

-- What a join pairs with a row is an app of the table.
pub join_apps-All :
    (P : App → Type 0) (apps : List App) (rows : List ProviderRow)
    → All P apps
    → All (λ (c : ProviderRow × App). P c.1) (join_apps apps rows)
unfolding join_apps app_by_id
join_apps-All P apps [] h = tt
join_apps-All P apps (r ∷ rows) h = elim (Option-cases (app_by_id r.app_id apps)) [
  | inl absent ↦
      subst (All (λ (c : ProviderRow × App). P c.1)) (sym (join_apps-none apps r rows absent))
        (join_apps-All P apps rows h)
  | inr (a, found) ↦
      subst (All (λ (c : ProviderRow × App). P c.1)) (sym (join_apps-some apps r rows a found)) (
        All-mem P apps h (find?-eq-some (λ (b : App). b.app_id == r.app_id) apps a found).0,
        join_apps-All P apps rows h,
      )
]
