-- ===== src/Domains/Table/Primary.antt =====
-- What the updates of `set_primary_domain` do to the rows of the `domains` and `apps` tables.
use mathlib.Core.List.Memᴰ
use cloud_in_a_bottle.Shared.{
  ==_iff, All, Bool, Bool-cases, Distinct, List, List_eq, Memᴰ, Text, [], arith, count, elem, false,
  find?-eq-some, inl, inr, map, refl, some, true, ℕ_eq, ◌+◌, ◌==◌, ◌∷◌, ◌≡◌, ◌≤◌,
}
use cloud_in_a_bottle.Schema.{App}
use cloud_in_a_bottle.Domains.{host_no_port}
use cloud_in_a_bottle.Domains.Table.{
  DomainRecord, get_record, restart_app, is_active, is_demoted, is_promoted, demote, promote,
}

abbrev pub is_primary : DomainRecord → Bool
is_primary r = r.is_primary

abbrev pub names : List DomainRecord → List Text
names = map (λ (r : DomainRecord). r.name)

-- The table after seeding: one primary row, and the names are a key.
pub record HasOnePrimary (rows : List DomainRecord) : Type 0 where
  pub one : count is_primary rows ≡ 1
  pub keys : Distinct (names rows)

pub count-demote :
    (name : Text) (rows : List DomainRecord)
    → count is_primary (demote name rows) + count (is_demoted name) rows ≡ count is_primary rows
unfolding demote
count-demote name [] = omega arith
count-demote name (r ∷ rows) = ground (arith, count-demote name rows)

pub count-promote :
    (name : Text) (rows : List DomainRecord)
    → count is_primary (promote name rows) ≡ count is_primary rows + count (is_promoted name) rows
unfolding promote
count-promote name [] = omega arith
count-promote name (r ∷ rows) = ground (arith, count-promote name rows)

pub count_le :
    (p q : DomainRecord → Bool) (rows : List DomainRecord)
    → ((r : DomainRecord) → p r ≡ true → q r ≡ true)
    → count p rows ≤ count q rows
count_le p q [] h = omega arith
count_le p q (r ∷ rows) h = ground (arith, h r, count_le p q rows h)

pub names-demote : (name : Text) (rows : List DomainRecord) → names (demote name rows) ≡ names rows
unfolding demote
names-demote name [] = refl
names-demote name (r ∷ rows) = ground (arith, names-demote name rows)

pub names-promote :
    (name : Text) (rows : List DomainRecord) → names (promote name rows) ≡ names rows
unfolding promote
names-promote name [] = refl
names-promote name (r ∷ rows) = ground (arith, names-promote name rows)

-- A key stands in one row at most.
pub count-name-none :
    (name : Text) (rows : List DomainRecord)
    → elem name (names rows) ≡ false
    → count (λ r. r.name == name) rows ≡ 0
count-name-none name [] h = refl
count-name-none name (r ∷ rows) h =
    ground (arith, count-name-none name rows, ==_iff name r.name, ==_iff r.name name)

pub count-name-le :
    (name : Text) (rows : List DomainRecord)
    → Distinct (names rows)
    → count (λ r. r.name == name) rows ≤ 1
count-name-le name [] d = omega arith
count-name-le name (r ∷ rows) (new, d) = elim (Bool-cases (r.name == name)) [
  | inl here ↦
      let e : r.name ≡ name = (==_iff r.name name).0 here in
      ground (arith, count-name-none name rows (rw e at new))
  | inr off ↦ ground (arith, count-name-le name rows d)
]

pub mem-demote :
    (name : Text) (rows : List DomainRecord) (r : DomainRecord)
    → Memᴰ r rows
    → is_demoted name r ≡ false
    → Memᴰ r (demote name rows)
unfolding demote
mem-demote name (x ∷ rows) r (Memᴰ.head e) h = Memᴰ.head (rw (← e) (ground arith))
mem-demote name (x ∷ rows) r (Memᴰ.tail m) h = Memᴰ.tail (mem-demote name rows r m h)
mem-demote name [] r m h = absurd (Memᴰ.not-nil m)

pub mem-promote :
    (name : Text) (rows : List DomainRecord) (r : DomainRecord)
    → Memᴰ r rows
    → is_promoted name r ≡ true
    → Memᴰ (record r { is_primary = true }) (promote name rows)
unfolding promote
mem-promote name [] r m h = absurd (Memᴰ.not-nil m)
mem-promote name (x ∷ rows) r (Memᴰ.head e) h = Memᴰ.head (rw (← e) (ground arith))
mem-promote name (x ∷ rows) r (Memᴰ.tail m) h = Memᴰ.tail (mem-promote name rows r m h)

pub restarted :
    (apps : List App)
    → All (λ (a : App). is_active a.status a.container_id ≡ false) (map restart_app apps)
unfolding restart_app
restarted [] = tt
restarted (a ∷ as') = (ground arith, restarted as')

pub count_of_none :
    (p : DomainRecord → Bool) (rows : List DomainRecord)
    → All (λ r. p r ≡ false) rows
    → count p rows ≡ 0
count_of_none p [] h = refl
count_of_none p (r ∷ rows) h = ground (arith, count_of_none p rows h.1)

pub get_record_sound :
    (rows : List DomainRecord) (name : Text) (r : DomainRecord)
    → get_record rows name ≡ some r
    → Memᴰ r rows × (host_no_port r.name ≡ host_no_port name)
unfolding get_record
get_record_sound rows name r h =
    let (m, e) =
      find?-eq-some (λ (x : DomainRecord). host_no_port x.name == host_no_port name) rows r h in
    (m, (==_iff (host_no_port r.name) (host_no_port name)).0 e)
