-- ===== src/Ports.antt =====
-- compute_space/src/compute_space/core/ports.py: which host ports an app may have. The two socket
-- binds and `random.shuffle` are parameters; a set of ports is a list.
mod Tests
pub mod Available
pub mod Free
pub mod Claimed
pub mod Resolved
pub mod Sync
use cloud_in_a_bottle.Shared.{
  Bool, List, Option, Result, String, String_eq, Text, [], any, elem, false, filter, find?,
  if◌then◌else◌, map, none, not, ok, raise, range_from, some, true, ℕ, ℕ_eq, ◌&&◌, ◌++◌, ◌+◌, ◌-◌,
  ◌==◌, ◌>>=◌, ◌||◌, ◌∷◌,
}
use cloud_in_a_bottle.Schema.{App, PortMapping, PortRow}

pub record Tables : Type 0 where
  pub apps : List App
  pub mappings : List PortRow

-- `used_by`, which says who holds a port.
pub data UsedBy : Type 0 where
  main_port : Text → UsedBy
  port_mapping : Text → Text → UsedBy
  host_service : UsedBy

-- The RuntimeErrors: what each message says.
pub data PortError : Type 0 where
  in_use : ℕ → Text → Option UsedBy → PortError
  requested_twice : ℕ → PortError
  no_free_ports : ℕ → ℕ → PortError

-- `range(range_start, range_end + 1)`.
unfoldable pub port_range : ℕ → ℕ → List ℕ
port_range range_start range_end = range_from range_start (range_end + 1 - range_start)

-- Python's truth of an optional text: neither None nor "".
abbrev pub is_set : Option String → Bool
is_set none = false
is_set (some s) = not (s == "")

-- `app_id != exclude_app_id`
abbrev pub differs : String → Option String → Bool
differs app_id none = true
differs app_id (some s) = not (app_id == s)

-- The rows that the query over the port mappings keeps, besides the port.
abbrev pub foreign : Option String → PortRow → Bool
foreign exclude m = if is_set exclude then differs m.app_id exclude else true

-- The row of the app that the port is the main port of.
main_row : ℕ → Tables → Option App
main_row port db = find? (λ a. a.local_port == port) db.apps

-- `app_port_mappings m JOIN apps a`: the first mapping of the port that the query keeps.
mapping_row : ℕ → Option String → List App → List PortRow → Option UsedBy
mapping_row port exclude apps [] = none
mapping_row port exclude apps (m ∷ ms) =
    let rest = mapping_row port exclude apps ms in
    if (m.host_port == port) && foreign exclude m
    then elim (find? (λ (a : App). a.app_id == m.app_id) apps) [
      | some a ↦ some (port_mapping a.name m.label)
      | none ↦ rest
    ]
    else rest

unfoldable pub port_reserved_by_app : ℕ → Tables → String → Bool
port_reserved_by_app port db app_id =
    any (λ a. (a.app_id == app_id) && (a.local_port == port)) db.apps
    || any (λ m. (m.app_id == app_id) && (m.host_port == port)) db.mappings

-- The end of both allocators: the port found, or the RuntimeError after the loop.
abbrev pub or_exhausted : ℕ → ℕ → Option ℕ → Result PortError ℕ
or_exhausted range_start range_end (some port) = ok port
or_exhausted range_start range_end none = raise (no_free_ports range_start range_end)

module _ (tcp_binds udp_binds : ℕ → Bool) where
  unfoldable pub port_is_bindable : ℕ → Bool
  port_is_bindable port = if tcp_binds port then (if udp_binds port then true else false) else false

  -- The loop that both allocators run over their candidates.
  pub first_free : List ℕ → List ℕ → Option ℕ
  first_free used [] = none
  first_free used (port ∷ ports) =
      let rest = first_free used ports in
      if elem port used then rest else if port_is_bindable port then some port else rest

  pub allocate_port : ℕ → ℕ → Tables → Result PortError ℕ
  allocate_port range_start range_end db =
      let used = map (λ a. a.local_port) db.apps ++ map (λ m. m.host_port) db.mappings in
      or_exhausted range_start range_end (first_free used (port_range range_start range_end))

  -- The checks after the one on main ports.
  check_mappings : ℕ → Tables → Option String → Bool × Option UsedBy
  check_mappings port db exclude = elim (mapping_row port exclude db.apps db.mappings) [
    | some used_by ↦ (false, some used_by)
    | none ↦
        if is_set exclude
          && elim exclude [ some id ↦ port_reserved_by_app port db id | none ↦ false ]
        then (true, none)
        else if port_is_bindable port
        then (true, none)
        else (false, some host_service)
  ]

  pub check_port_available : ℕ → Tables → Option String → Bool × Option UsedBy
  unfolding main_row mapping_row check_mappings
  check_port_available port db exclude = elim (main_row port db) [
    | some a ↦
        if differs a.app_id exclude
        then (false, some (main_port a.name))
        else check_mappings port db exclude
    | none ↦ check_mappings port db exclude
  ]

  module _ (shuffle : List ℕ → List ℕ) where
    pub find_free_host_port : ℕ → ℕ → Tables → List ℕ → Option String → Result PortError ℕ
    find_free_host_port range_start range_end db claimed exclude =
        let mapped = map (λ m. m.host_port) (filter (foreign exclude) db.mappings) in
        let used = (map (λ a. a.local_port) db.apps ++ mapped) ++ claimed in
        or_exhausted range_start range_end
          (first_free used (shuffle (port_range range_start range_end)))

    -- The two loops of `resolve_port_mappings`, over `claimed` and `resolved`.
    module _ (range_start range_end : ℕ) (db : Tables) (exclude : Option String) where
      fixed_pass :
          List PortMapping
          → List ℕ
          → List PortMapping
          → Result PortError (List ℕ × List PortMapping)
      fixed_pass [] claimed resolved = ok (claimed, resolved)
      fixed_pass (pm ∷ pms) claimed resolved =
          let skipped = fixed_pass pms claimed resolved in
          let taken = fixed_pass pms (pm.host_port ∷ claimed) (resolved ++ pm ∷ []) in
          if pm.host_port == 0
          then skipped
          else (let (available, used_by) = check_port_available pm.host_port db exclude in
              if available
              then if elem pm.host_port claimed then raise (requested_twice pm.host_port) else taken
              else raise (in_use pm.host_port pm.label used_by))

      auto_pass : List PortMapping → List ℕ → List PortMapping → Result PortError (List PortMapping)
      auto_pass [] claimed resolved = ok resolved
      auto_pass (pm ∷ pms) claimed resolved =
          let skipped = auto_pass pms claimed resolved in
          let found = find_free_host_port range_start range_end db claimed exclude in
          if pm.host_port == 0
          then (found >>= λ port.
              auto_pass pms (port ∷ claimed) (resolved ++ record pm { host_port = port } ∷ []))
          else skipped

      pub resolve_port_mappings : List PortMapping → Result PortError (List PortMapping)
      resolve_port_mappings mappings =
          fixed_pass mappings [] [] >>= λ (claimed, resolved). auto_pass mappings claimed resolved
