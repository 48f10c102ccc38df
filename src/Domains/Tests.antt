-- ===== src/Domains/Tests.antt =====
-- Tests of the domains, and their theorems at concrete hosts and tables.
use mathlib.Core.List.Memᴰ
use cloud_in_a_bottle.Shared.{
  Bool, List, List_eq, Memᴰ, Text, [], before, codes, ends_with, false, lower, none, ok, raise,
  refl, some, true, ℕ_eq, ◌++◌, ◌↔◌, ◌∷◌, ◌≡◌, ◌≢◌, ◌⊎◌,
}
use cloud_in_a_bottle.Schema.{App, AppStatus}
use cloud_in_a_bottle.Domains.{
  Domain, make_domain, name_no_port, host_no_port, owns, looks_like_app_subdomain,
  app_name_from_hostname, is_valid_app_name, is_alnum, is_inner, inner_then_alnum, match, url,
  scheme,
}
use cloud_in_a_bottle.Domains.Hostnames.{
  IsLabel, OrNewline, is_valid_app_name_iff, app_name_from_hostname_iff,
}
use mathlib.Core.Option
use cloud_in_a_bottle.Domains.Longest.{IsLongest, match-IsLongest, match_order_free}
use cloud_in_a_bottle.Domains.Table.{
  DomainRecord, DomainCertStatus, State, set_primary_domain, get_record, busy_apps, demote, promote,
  restart_app, apps_busy, not_found,
}
use cloud_in_a_bottle.Domains.Table.Primary.{HasOnePrimary}
use cloud_in_a_bottle.Domains.Table.Promotion.{
  IsPromoted, set_primary_domain-IsPromoted, set_primary_domain_raises,
}

abbrev public : Domain
public = record { name = codes "example.com:8443"; tls = true }

abbrev nested : Domain
nested = record { name = codes "host.example.com"; tls = true }

abbrev both : List Domain
both = public ∷ nested ∷ []

abbrev notes_host : Text
notes_host = codes "Notes.Host.Example.com:8443"

hostname_test : app_name_from_hostname nested notes_host ≡ some (codes "notes")
unfolding app_name_from_hostname looks_like_app_subdomain owns host_no_port name_no_port ends_with
    lower before is_valid_app_name is_alnum is_inner inner_then_alnum
hostname_test = refl

match_test : match both notes_host ≡ some nested
unfolding match owns host_no_port name_no_port ends_with lower before
match_test = refl

url_test : url (make_domain (codes "MyHost.local") false) ≡ codes "http://myhost.local"
unfolding url scheme make_domain lower
url_test = refl

is_valid_app_name_iff_example :
    (is_valid_app_name (codes "my-app") ≡ true)
    ↔ ((t : Text) × OrNewline (codes "my-app") t × IsLabel t)
is_valid_app_name_iff_example = is_valid_app_name_iff (codes "my-app")

named : name_no_port nested ≢ []
unfolding name_no_port before
named = cc

app_name_from_hostname_iff_example :
    (app_name_from_hostname nested notes_host ≡ some (codes "notes")) ↔ (
      (is_valid_app_name (codes "notes") ≡ true)
      × (host_no_port notes_host ≡ codes "notes" ++ b'.' ∷ name_no_port nested))
app_name_from_hostname_iff_example =
    app_name_from_hostname_iff nested notes_host (codes "notes") named

match-IsLongest_example : IsLongest both notes_host nested
match-IsLongest_example = match-IsLongest notes_host both nested match_test

match_turned : match (nested ∷ public ∷ []) notes_host ≡ some nested
unfolding match owns host_no_port name_no_port ends_with lower before
match_turned = refl

turn : {A : Type 0} {a b x : A} → Memᴰ x (a ∷ b ∷ []) → Memᴰ x (b ∷ a ∷ [])
turn (Memᴰ.head e) = Memᴰ.tail (Memᴰ.head e)
turn (Memᴰ.tail (Memᴰ.head e)) = Memᴰ.head e
turn (Memᴰ.tail (Memᴰ.tail m)) = absurd (Memᴰ.not-nil m)

match_order_free_example :
    Option.map name_no_port (match both notes_host)
    ≡ Option.map name_no_port (match (nested ∷ public ∷ []) notes_host)
match_order_free_example =
    match_order_free notes_host both (nested ∷ public ∷ []) (λ x m. turn m) (λ x m. turn m)

abbrev row : Text → Bool → DomainRecord
row name primary = record {
  name = name;
  tls = true;
  cert_status = DomainCertStatus.active;
  error_message = none;
  is_primary = primary;
}

abbrev app : AppStatus → App
app status = record {
  app_id = "a1";
  name = codes "notes";
  local_port = 9000;
  container_id = some "c1";
  status = status;
  error_message = none;
  public_paths = [];
  created_at = 1;
}

abbrev before_swap : State
before_swap = record {
  domains = row (codes "a.com") true ∷ row (codes "b.com") false ∷ [];
  apps = app AppStatus.running ∷ [];
}

abbrev after_swap : State
after_swap = record {
  domains = row (codes "a.com") false ∷ row (codes "b.com") true ∷ [];
  apps =
      record (app AppStatus.starting) {
        error_message = some (codes "Restarting after primary domain change");
      }
      ∷ [];
}

before_swap-HasOnePrimary : HasOnePrimary before_swap.domains
before_swap-HasOnePrimary = record { one = refl; keys = (refl, (refl, tt)) }

promotion_test : set_primary_domain before_swap (codes "B.com:443") ≡ ok (true, after_swap)
unfolding set_primary_domain get_record busy_apps demote promote restart_app host_no_port lower
    before
promotion_test = refl

set_primary_domain-IsPromoted_example :
    IsPromoted before_swap before_swap-HasOnePrimary (codes "B.com:443") true after_swap
set_primary_domain-IsPromoted_example =
    set_primary_domain-IsPromoted before_swap before_swap-HasOnePrimary (codes "B.com:443") true
      after_swap promotion_test

abbrev building : State
building = record before_swap { apps = app AppStatus.building ∷ [] }

busy_test : set_primary_domain building (codes "b.com") ≡ raise (apps_busy (codes "notes" ∷ []))
unfolding set_primary_domain get_record busy_apps demote promote restart_app host_no_port lower
    before
busy_test = refl

set_primary_domain_raises_example :
    ((get_record building.domains (host_no_port (codes "b.com")) ≡ none)
      × (apps_busy (codes "notes" ∷ []) ≡ not_found (host_no_port (codes "b.com"))))
    ⊎ ((busy_apps building.apps ≢ [])
        × (apps_busy (codes "notes" ∷ []) ≡ apps_busy (busy_apps building.apps)))
set_primary_domain_raises_example =
    set_primary_domain_raises building before_swap-HasOnePrimary (codes "b.com") _ busy_test
