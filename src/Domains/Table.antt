-- ===== src/Domains/Table.antt =====
-- The `domains` table of compute_space/src/compute_space/core/domains.py: its queries, and the
-- transaction that promotes a domain. The table's primary key is the name.

pub mod Primary
pub mod Promotion
use mathlib.Core.Option
use cloud_in_a_bottle.Shared.{
  Bool, List, List_eq, Option, Result, String, Text, [], any, before, codes, count, false, filter,
  find?, if◌then◌else◌, lower, ltb, map, none, not, ok, raise, some, sort_by, true, ℕ_eq, ◌&&◌,
  ◌++◌, ◌==◌, ◌∷◌,
}
use cloud_in_a_bottle.Schema.{App, AppStatus}
use cloud_in_a_bottle.Domains.{Domain, make_domain, name_no_port, host_no_port}

-- `DomainCertStatus`; NONE is `no_cert`.
pub data DomainCertStatus : Type 0 where
  no_cert acquiring active failed : DomainCertStatus

pub record DomainRecord : Type 0 where
  pub name : Text
  pub tls : Bool
  pub cert_status : DomainCertStatus
  pub error_message : Option Text
  pub is_primary : Bool

unfoldable pub to_domain : DomainRecord → Domain
to_domain r = make_domain r.name r.tls

pub text_leb : Text → Text → Bool
text_leb [] t = true
text_leb (c ∷ s) [] = false
text_leb (c ∷ s) (d ∷ t) = if ltb c d then true else if c == d then text_leb s t else false

-- `ORDER BY is_primary DESC, name`
row_leb : DomainRecord → DomainRecord → Bool
row_leb r s =
    if r.is_primary && not s.is_primary
    then true
    else if s.is_primary && not r.is_primary
    then false
    else text_leb r.name s.name

unfoldable pub load_records : List DomainRecord → List DomainRecord
unfolding row_leb text_leb
load_records rows = sort_by row_leb rows

unfoldable pub effective_domains : List DomainRecord → List Domain
effective_domains rows = map to_domain (load_records rows)

unfoldable pub get_record : List DomainRecord → Text → Option DomainRecord
get_record rows name = find? (λ r. host_no_port r.name == host_no_port name) rows

-- A statement that breaks the unique index on `is_primary`.
pub data DomainError : Type 0 where
  integrity_error : DomainError
  not_found : Text → DomainError
  no_primary : DomainError
  apps_busy : List Text → DomainError
  changed_concurrently : DomainError

-- `ON CONFLICT(name) DO UPDATE`: the primary flag of a row that is there stays.
unfoldable pub upsert_record :
    List DomainRecord → DomainRecord → Result DomainError (List DomainRecord)
upsert_record rows new =
    if any (λ (r : DomainRecord). r.name == lower new.name) rows
    then ok (
        map
          (λ r.
            if r.name == lower new.name
            then record r {
              tls = new.tls;
              cert_status = new.cert_status;
              error_message = new.error_message;
            }
            else r)
          rows)
    else if new.is_primary && any (λ (r : DomainRecord). r.is_primary) rows
    then raise integrity_error
    else ok (rows ++ record new { name = lower new.name } ∷ [])

-- The statement's row count decides the answer.
unfoldable pub remove_record : List DomainRecord → Text → Bool × List DomainRecord
remove_record rows name = (
  any (λ (r : DomainRecord). r.name == lower name) rows,
  filter (λ (r : DomainRecord). not (r.name == lower name)) rows,
)

unfoldable pub remove_non_primary_record : List DomainRecord → Text → Bool × List DomainRecord
remove_non_primary_record rows name = (
  any (λ (r : DomainRecord). (r.name == lower name) && not r.is_primary) rows,
  filter (λ (r : DomainRecord). not ((r.name == lower name) && not r.is_primary)) rows,
)

unfoldable pub set_record_status :
    List DomainRecord → Text → DomainCertStatus → Option Text → List DomainRecord
set_record_status rows name status message =
    map
      (λ r.
        if r.name == lower name
        then record r { cert_status = status; error_message = message }
        else r)
      rows

unfoldable pub primary_domain_or_none : List DomainRecord → Option Domain
primary_domain_or_none rows = Option.map to_domain (find? (λ r. r.is_primary) rows)

unfoldable pub is_primary_domain : List DomainRecord → Text → Bool
is_primary_domain rows name = elim (primary_domain_or_none rows) [
  | none ↦ false
  | some primary ↦ before b':' name == name_no_port primary
]

-- What the transaction reads and writes.
pub record State : Type 0 where
  pub domains : List DomainRecord
  pub apps : List App

abbrev pub primary_domain_restart_marker : Text
primary_domain_restart_marker = codes "Restarting after primary domain change"

-- `status IN ('building', 'starting', 'removing')`
abbrev pub is_busy : AppStatus → Bool
is_busy AppStatus.building = true
is_busy AppStatus.starting = true
is_busy AppStatus.removing = true
is_busy _ = false

-- `status = 'running' OR (status = 'error' AND container_id IS NOT NULL)`
abbrev pub is_active : AppStatus → Option String → Bool
is_active AppStatus.running container = true
is_active AppStatus.error (some c) = true
is_active AppStatus.error none = false
is_active _ container = false

unfoldable pub busy_apps : List App → List Text
unfolding text_leb
busy_apps apps =
    sort_by text_leb (map (λ (a : App). a.name) (filter (λ (a : App). is_busy a.status) apps))

unfoldable pub restart_app : App → App
restart_app a =
    if is_active a.status a.container_id
    then record a {
      status = AppStatus.starting;
      error_message = some primary_domain_restart_marker;
    }
    else a

abbrev pub is_demoted : Text → DomainRecord → Bool
is_demoted name r = (r.name == name) && r.is_primary

abbrev pub is_promoted : Text → DomainRecord → Bool
is_promoted name r = (r.name == name) && not r.is_primary

unfoldable pub demote : Text → List DomainRecord → List DomainRecord
demote name = map (λ r. if is_demoted name r then record r { is_primary = false } else r)

unfoldable pub promote : Text → List DomainRecord → List DomainRecord
promote name = map (λ r. if is_promoted name r then record r { is_primary = true } else r)

-- The two updates, and the check of their row counts.
swap_primary : State → Text → Text → Result DomainError (Bool × State)
swap_primary s current_name target_name =
    let demoted = demote current_name s.domains in
    if (count (is_demoted current_name) s.domains == 1)
      && (count (is_promoted target_name) demoted == 1)
    then ok
        (true, record s { domains = promote target_name demoted; apps = map restart_app s.apps })
    else raise changed_concurrently

promote_to : State → DomainRecord → Result DomainError (Bool × State)
promote_to s target = elim (find? (λ (r : DomainRecord). r.is_primary) s.domains) [
  | none ↦ raise no_primary
  | some current ↦ if target.name == current.name then ok (false, s) else elim (busy_apps s.apps) [
    | [] ↦ swap_primary s current.name target.name
    | a ∷ as' ↦ raise (apps_busy (a ∷ as'))
  ]
]

-- The body between BEGIN and COMMIT. An exception rolls the transaction back: no state comes with it.
unfoldable pub set_primary_domain : State → Text → Result DomainError (Bool × State)
unfolding promote_to swap_primary
set_primary_domain s name = elim (get_record s.domains (host_no_port name)) [
  | none ↦ raise (not_found (host_no_port name))
  | some target ↦ promote_to s target
]
