-- ===== src/Ports/Free.antt =====
-- What the allocators' loop finds, and `allocate_port`.
use cloud_in_a_bottle.Shared.{
  ==_iff, All, All-mem, Bool, Bool-cases, List, Memᴰ, Option, Option-cases, [], ap, arith, elem,
  elem-append, elem-map_iff, false, find?, find?-eq-none_iff, find?-eq-some, if◌then◌else◌, inl,
  inr, map, none, ok, raise, range_from, refl, some, suc, sym, true, zero, ℕ, ℕ_eq, ◌++◌, ◌+◌, ◌-◌,
  ◌<◌, ◌==◌, ◌↔◌, ◌∙◌, ◌∷◌, ◌≡◌, ◌≢◌, ◌≤◌,
}
use mathlib.Core.List.Memᴰ
use native.Mathlib.Decide.{dec_lt}
use cloud_in_a_bottle.Schema.{App, PortRow}
use cloud_in_a_bottle.Ports.{
  Tables, port_is_bindable, first_free, allocate_port, port_range, or_exhausted, no_free_ports,
}

-- No app has the port as its main port, and no mapping has it.
pub record IsUnused (port : ℕ) (db : Tables) : Type 0 where
  pub main : All (λ (a : App). a.local_port ≢ port) db.apps
  pub mapped : All (λ (m : PortRow). m.host_port ≢ port) db.mappings

used_iff :
    (port : ℕ) (db : Tables)
    → (elem port (map (λ a. a.local_port) db.apps ++ map (λ m. m.host_port) db.mappings) ≡ false)
      ↔ IsUnused port db
used_iff port db =
    let main = elem-map_iff (λ (a : App). a.local_port) port db.apps in
    let mapped = elem-map_iff (λ (m : PortRow). m.host_port) port db.mappings in
    ground (
      arith,
      main,
      mapped,
      elem-append port (map (λ a. a.local_port) db.apps) (map (λ m. m.host_port) db.mappings),
    )

pub range_from_bounds :
    (start n q : ℕ) → Memᴰ q (range_from start n) → (start ≤ q) × (q < start + n)
range_from_bounds start zero q m = absurd (Memᴰ.not-nil m)
range_from_bounds start (suc n) q (Memᴰ.head e) = (omega arith, omega arith)
range_from_bounds start (suc n) q (Memᴰ.tail m) =
    let (low, high) = range_from_bounds (start + 1) n q m in (omega arith, omega arith)

module _ (tcp_binds udp_binds : ℕ → Bool) where
  abbrev bindable : ℕ → Bool
  bindable = port_is_bindable tcp_binds udp_binds

  abbrev pub IsOpen : List ℕ → ℕ → Type 0
  IsOpen used port = (elem port used ≡ false) × (bindable port ≡ true)

  abbrev is_free : List ℕ → ℕ → Bool
  is_free used port = if elem port used then false else bindable port

  first_free-eq-find? :
      (used l : List ℕ) → first_free tcp_binds udp_binds used l ≡ find? (is_free used) l
  unfolding first_free
  first_free-eq-find? used [] = refl
  first_free-eq-find? used (x ∷ l) = ground (arith, first_free-eq-find? used l)

  pub first_free-IsOpen :
      (used l : List ℕ) (port : ℕ)
      → first_free tcp_binds udp_binds used l ≡ some port
      → Memᴰ port l × (elem port used ≡ false) × (bindable port ≡ true)
  first_free-IsOpen used l port h =
      let (m, free) = find?-eq-some (is_free used) l port (sym (first_free-eq-find? used l) ∙ h) in
      (m, ground arith, ground arith)

  pub first_free-none :
      (used l : List ℕ) (port : ℕ)
      → first_free tcp_binds udp_binds used l ≡ none
      → Memᴰ port l
      → ¬ IsOpen used port
  first_free-none used l port h m free =
      let none_free =
        (find?-eq-none_iff (is_free used) l).0 (sym (first_free-eq-find? used l) ∙ h) in
      let here = All-mem (λ x. is_free used x ≡ false) l none_free m in ground arith

  first_free_least :
      (used : List ℕ) (start n port : ℕ)
      → find? (is_free used) (range_from start n) ≡ some port
      → (start ≤ port) × (port < start + n) × ((q : ℕ) → start ≤ q → q < port → ¬ IsOpen used q)
  first_free_least used start zero port h = cc
  first_free_least used start (suc n) port h = elim (Bool-cases (is_free used start)) [
    | inl here ↦
        let e : port ≡ start = ground arith in
        (omega arith, omega arith, λ q le lt. absurd (omega arith))
    | inr off ↦
        let (low, high, least) = first_free_least used (start + 1) n port (ground arith) in
        (
          omega arith,
          omega arith,
          λ q le lt free. elim (Bool-cases (q == start)) [
            | inl e ↦ let eq : q ≡ start = (==_iff q start).0 e in ground arith
            | inr ne ↦ least q (ground arith) lt free
          ],
        )
  ]

  -- What a port needs to be allocated.
  abbrev pub CanAllocate : ℕ → Tables → Type 0
  CanAllocate port db = IsUnused port db × (port_is_bindable tcp_binds udp_binds port ≡ true)

  used_ports : Tables → List ℕ
  used_ports db = map (λ a. a.local_port) db.apps ++ map (λ m. m.host_port) db.mappings

  CanAllocate-iff : (db : Tables) (port : ℕ) → IsOpen (used_ports db) port ↔ CanAllocate port db
  unfolding used_ports
  CanAllocate-iff db port =
      let (to, from) = used_iff port db in
      (λ (new, fits). (to new, fits), λ (unused, fits). (from unused, fits))

  abbrev find_least : ℕ → ℕ → Tables → Option ℕ
  find_least range_start range_end db =
      find? (is_free (used_ports db)) (range_from range_start (range_end + 1 - range_start))

  allocate_port-eq-find_least :
      (range_start range_end : ℕ) (db : Tables)
      → allocate_port tcp_binds udp_binds range_start range_end db
        ≡ or_exhausted range_start range_end (find_least range_start range_end db)
  unfolding allocate_port port_range used_ports
  allocate_port-eq-find_least range_start range_end db =
      ap (or_exhausted range_start range_end) (first_free-eq-find? _ _)

  mem-range_from : (start n q : ℕ) → start ≤ q → q < start + n → Memᴰ q (range_from start n)
  mem-range_from start zero q low high = absurd (omega arith)
  mem-range_from start (suc n) q low high = elim (Bool-cases (q == start)) [
    | inl e ↦ Memᴰ.head ((==_iff q start).0 e)
    | inr ne ↦ Memᴰ.tail (mem-range_from (start + 1) n q (ground arith) (omega arith))
  ]

  -- Where some port of the range is unused and bindable, `allocate_port` returns a port of the
  -- range that is unused and bindable, and no smaller port of the range is.
  pub allocate_port_least :
      (range_start range_end : ℕ) (db : Tables) (q : ℕ)
      → range_start ≤ q
      → q ≤ range_end
      → CanAllocate q db
      → (port : ℕ) × (allocate_port tcp_binds udp_binds range_start range_end db ≡ ok port)
        × (range_start ≤ port)
        × (port ≤ q)
        × CanAllocate port db
        × ((r : ℕ) → range_start ≤ r → r < port → ¬ CanAllocate r db)
  allocate_port_least range_start range_end db q low high can =
      let here = mem-range_from range_start (range_end + 1 - range_start) q low (omega arith) in
      let none_free = find?-eq-none_iff (is_free (used_ports db)) _ in
      let (new, fits) = (CanAllocate-iff db q).1 can in
      elim (Option-cases (find_least range_start range_end db)) [
        | inl missed ↦
            let taken =
              All-mem (λ x. is_free (used_ports db) x ≡ false) _ (none_free.0 missed) here in
            absurd (ground arith)
        | inr (port, found) ↦
            let (m, free) = find?-eq-some (is_free (used_ports db)) _ port found in
            let (from, to, least) = first_free_least (used_ports db) range_start _ port found in
            (
              port,
              allocate_port-eq-find_least range_start range_end db
                  ∙ ap (or_exhausted range_start range_end) found,
              from,
              elim (dec_lt q port) [
                | yes lt ↦ absurd (least q low lt (new, fits))
                | no ge ↦ omega arith
              ],
              (CanAllocate-iff db port).0 (ground arith, ground arith),
              λ r ge lt can_r. least r ge lt ((CanAllocate-iff db r).1 can_r),
            )
      ]

  -- Where no port of the range is unused and bindable, `allocate_port` raises its RuntimeError.
  pub allocate_port_exhausted :
      (range_start range_end : ℕ) (db : Tables)
      → ((q : ℕ) → range_start ≤ q → q ≤ range_end → ¬ CanAllocate q db)
      → allocate_port tcp_binds udp_binds range_start range_end db
        ≡ raise (no_free_ports range_start range_end)
  allocate_port_exhausted range_start range_end db nothing =
      elim (Option-cases (find_least range_start range_end db)) [
        | inl missed ↦
            allocate_port-eq-find_least range_start range_end db
            ∙ ap (or_exhausted range_start range_end) missed
        | inr (port, found) ↦
            let (from, to, _) = first_free_least (used_ports db) range_start _ port found in
            let (_, free) = find?-eq-some (is_free (used_ports db)) _ port found in
            absurd (
              nothing port from (omega arith)
                ((CanAllocate-iff db port).0 (ground arith, ground arith)))
      ]
