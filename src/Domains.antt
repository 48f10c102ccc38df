-- ===== src/Domains.antt =====
-- compute_space/src/compute_space/core/domains.py (the class Domain) and is_valid_app_name of
-- compute_space/src/compute_space/core/app_id.py: which host names belong to a domain.
mod Tests
pub mod Hostnames
pub mod Longest
pub mod Table
use cloud_in_a_bottle.Shared.{
  Bool, List, List_eq, Option, Text, [], before, codes, ends_with, false, if◌then◌else◌, leb,
  length, lower, ltb, none, not, some, take, true, ℕ, ℕ_eq, ◌&&◌, ◌++◌, ◌+◌, ◌-◌, ◌==◌, ◌||◌, ◌∷◌,
}

pub record Domain : Type 0 where
  pub name : Text
  pub tls : Bool

-- The constructor runs the converter on `name`.
unfoldable pub make_domain : Text → Bool → Domain
make_domain name tls = record { name = lower name; tls = tls }

unfoldable pub name_no_port : Domain → Text
name_no_port d = before b':' d.name

unfoldable pub mdns : Domain → Bool
mdns d = ends_with (codes ".local") (name_no_port d)

unfoldable pub scheme : Domain → Text
scheme d = if d.tls then codes "https" else codes "http"

unfoldable pub url : Domain → Text
url d = scheme d ++ codes "://" ++ d.name

-- `host.split(":")[0].lower()`
unfoldable pub host_no_port : Text → Text
host_no_port host = lower (before b':' host)

unfoldable pub owns : Domain → Text → Bool
owns d host =
    if name_no_port d == []
    then false
    else (host_no_port host == name_no_port d)
      || ends_with (b'.' ∷ name_no_port d) (host_no_port host)

unfoldable pub looks_like_app_subdomain : Domain → Text → Bool
looks_like_app_subdomain d host = owns d host && not (host_no_port host == name_no_port d)

unfoldable pub is_alnum : ℕ → Bool
is_alnum c = (leb b'a' c && leb c b'z') || (leb b'0' c && leb c b'9')

unfoldable pub is_inner : ℕ → Bool
is_inner c = is_alnum c || (c == b'-')

-- `$` of a regular expression matches at the end, and before a newline that ends the text.
abbrev pub at_end : Text → Bool
at_end [] = true
at_end (c ∷ []) = c == 10
at_end (c ∷ d ∷ s) = false

-- `[a-z0-9-]*[a-z0-9]$`
unfoldable pub inner_then_alnum : Text → Bool
inner_then_alnum [] = false
inner_then_alnum (c ∷ s) = (is_alnum c && at_end s) || (is_inner c && inner_then_alnum s)

-- `^[a-z0-9]([a-z0-9-]*[a-z0-9])?$`
unfoldable pub is_valid_app_name : Text → Bool
is_valid_app_name [] = false
is_valid_app_name (c ∷ s) = is_alnum c && (at_end s || inner_then_alnum s)

unfoldable pub app_name_from_hostname : Domain → Text → Option Text
app_name_from_hostname d host =
    let h = host_no_port host in
    let app_name = take (length h - (length (name_no_port d) + 1)) h in
    if looks_like_app_subdomain d host
    then (if is_valid_app_name app_name then some app_name else none)
    else none

-- The loop of `Domain.match`: a longer name replaces `best`.
pub match_from : Option Domain → List Domain → Text → Option Domain
match_from best [] host = best
match_from best (d ∷ ds) host =
    match_from
      (if owns d host && elim best [
        | none ↦ true
        | some b ↦ ltb (length (name_no_port b)) (length (name_no_port d))
      ]
        then some d
        else best)
      ds host

unfoldable pub match : List Domain → Text → Option Domain
unfolding match_from
match domains host = match_from none domains host
