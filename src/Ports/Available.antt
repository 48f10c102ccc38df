-- ===== src/Ports/Available.antt =====
-- What `check_port_available` answers.
use cloud_in_a_bottle.Shared.{
  ==_iff, All, Bool, Bool-cases, List, Option, String, String_eq, [], any, arith, false, find?, inl,
  inr, none, not, refl, some, true, ℕ, ℕ_eq, ◌&&◌, ◌==◌, ◌||◌, ◌∷◌, ◌≡◌, ◌≢◌,
}
use cloud_in_a_bottle.Schema.{App, PortRow}
use cloud_in_a_bottle.Ports.{
  Tables, mapping_row, check_port_available, foreign, differs, is_set, port_is_bindable,
  port_reserved_by_app,
}

-- The unique index on apps.local_port.
abbrev pub DistinctPorts : List App → Type 0
DistinctPorts [] = Unit
DistinctPorts (a ∷ as') = All (λ (b : App). b.local_port ≢ a.local_port) as' × DistinctPorts as'

-- What the schema promises: main ports are unique, and every mapping belongs to an app.
pub record IsConsistent (db : Tables) : Type 0 where
  pub unique : DistinctPorts db.apps
  pub owned :
      All (λ (m : PortRow). any (λ (a : App). a.app_id == m.app_id) db.apps ≡ true) db.mappings

-- An app other than the excluded one has the port as its main port.
abbrev pub other_main : ℕ → Option String → Tables → Bool
other_main port exclude db =
    any (λ (a : App). (a.local_port == port) && differs a.app_id exclude) db.apps

-- A mapping that is not the excluded app's has the port.
abbrev pub other_mapping : ℕ → Option String → Tables → Bool
other_mapping port exclude db =
    any (λ (m : PortRow). (m.host_port == port) && foreign exclude m) db.mappings

-- The port is one that the excluded app holds itself.
abbrev pub own_port : ℕ → Option String → Tables → Bool
own_port port none db = false
own_port port (some id) db = is_set (some id) && port_reserved_by_app port db id

abbrev is_some {ℓ} : {A : Type ℓ} → Option A → Bool
is_some none = false
is_some (some a) = true

find?-eq-some_of_any :
    (p : App → Bool) (xs : List App) → any p xs ≡ true → is_some (find? p xs) ≡ true
find?-eq-some_of_any p [] h = h
find?-eq-some_of_any p (x ∷ xs) h = ground (arith, find?-eq-some_of_any p xs)

mapping_row-any :
    (port : ℕ) (exclude : Option String) (apps : List App) (ms : List PortRow)
    → All (λ (m : PortRow). any (λ (a : App). a.app_id == m.app_id) apps ≡ true) ms
    → is_some (mapping_row port exclude apps ms)
      ≡ any (λ (m : PortRow). (m.host_port == port) && foreign exclude m) ms
unfolding mapping_row
mapping_row-any port exclude apps [] h = refl
mapping_row-any port exclude apps (m ∷ ms) (here, h) = ground (
  arith,
  mapping_row-any port exclude apps ms h,
  find?-eq-some_of_any (λ (a : App). a.app_id == m.app_id) apps here,
)

abbrev main_differs : Option String → Option App → Bool
main_differs exclude none = false
main_differs exclude (some a) = differs a.app_id exclude

no_other_main :
    (port : ℕ) (exclude : Option String) (apps : List App)
    → All (λ (b : App). b.local_port ≢ port) apps
    → any (λ (a : App). (a.local_port == port) && differs a.app_id exclude) apps ≡ false
no_other_main port exclude [] h = refl
no_other_main port exclude (a ∷ as') (ne, h) = ground (arith, no_other_main port exclude as' h)

main_row-any :
    (port : ℕ) (exclude : Option String) (apps : List App)
    → DistinctPorts apps
    → main_differs exclude (find? (λ (a : App). a.local_port == port) apps)
      ≡ any (λ (a : App). (a.local_port == port) && differs a.app_id exclude) apps
main_row-any port exclude [] h = refl
main_row-any port exclude (a ∷ as') (new, h) = elim (Bool-cases (a.local_port == port)) [
  | inl here ↦
      let e : a.local_port ≡ port = (==_iff a.local_port port).0 here in
      ground (arith, no_other_main port exclude as' (rw e at new))
  | inr off ↦ ground (arith, main_row-any port exclude as' h)
]

module _ (tcp_binds udp_binds : ℕ → Bool) where
  -- Over consistent tables the answer is true exactly when no other app has the port, as its main
  -- port or by a mapping, and the port is the excluded app's own or can be bound.
  pub check_port_available_lem :
      (port : ℕ) (db : Tables) (exclude : Option String)
      → IsConsistent db
      → (check_port_available tcp_binds udp_binds port db exclude).0 ≡ (
          not (other_main port exclude db)
          && not (other_mapping port exclude db)
          && (own_port port exclude db || port_is_bindable tcp_binds udp_binds port))
  unfolding check_port_available
  check_port_available_lem port db exclude c = ground (
    arith,
    main_row-any port exclude db.apps c.unique,
    mapping_row-any port exclude db.apps db.mappings c.owned,
  )
