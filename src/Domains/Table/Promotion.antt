-- ===== src/Domains/Table/Promotion.antt =====
-- `set_primary_domain` keeps exactly one primary domain, and hands the active apps to start-up.
use mathlib.Core.Path.{subst}
use cloud_in_a_bottle.Shared.{
  ==_iff, ==_refl, All, Bool, Bool-cases, List_eq, Memᴰ, Option-cases, Text, [], ap, arith, count,
  count_of_mem, eq_of_count, false, find?, find?-eq-none_iff, find?-eq-some, inl, inr, map, none,
  ok, raise, refl, some, sym, true, ℕ_eq, ◌==◌, ◌∙◌, ◌≡◌, ◌≢◌, ◌⊎◌,
}
use cloud_in_a_bottle.Domains.Table.Primary.{
  is_primary, names, HasOnePrimary, count-demote, count-promote, count_le, names-demote,
  names-promote, count-name-le, mem-demote, mem-promote, restarted, count_of_none, get_record_sound,
}
use cloud_in_a_bottle.Schema.{App}
use cloud_in_a_bottle.Domains.{host_no_port}
use cloud_in_a_bottle.Domains.Table.{
  DomainRecord, State, DomainError, get_record, busy_apps, restart_app, is_active, is_demoted,
  is_promoted, demote, promote, swap_primary, promote_to, set_primary_domain, not_found, apps_busy,
}

module _ (s : State) (valid : HasOnePrimary s.domains) where
  other-not-primary :
      (current target : DomainRecord)
      → Memᴰ current s.domains
      → current.is_primary ≡ true
      → Memᴰ target s.domains
      → target.name ≢ current.name
      → target.is_primary ≡ false
  other-not-primary current target mc pc mt ne = elim (Bool-cases target.is_primary) [
    | inl pt ↦
        let same =
          eq_of_count is_primary s.domains target current (omega (arith, valid.one)) mt mc pt pc in
        absurd (ne (ap (λ (r : DomainRecord). r.name) same))
    | inr p ↦ p
  ]

  swap_counts :
      (current target : DomainRecord)
      → Memᴰ current s.domains
      → current.is_primary ≡ true
      → Memᴰ target s.domains
      → target.name ≢ current.name
      → (count (is_demoted current.name) s.domains ≡ 1)
        × (count (is_promoted target.name) (demote current.name s.domains) ≡ 1)
  swap_counts current target mc pc mt ne =
      let low =
        count_of_mem (is_demoted current.name) s.domains current mc
          (ground (arith, ==_refl current.name)) in
      let high = count_le (is_demoted current.name) is_primary s.domains (λ r h. ground arith) in
      let plain = other-not-primary current target mc pc mt ne in
      let listed = mem-demote current.name s.domains target mt (ground arith) in
      let some_row =
        count_of_mem (is_promoted target.name) (demote current.name s.domains) target listed
          (ground (arith, ==_refl target.name)) in
      let rows =
        count_le (is_promoted target.name) (λ r. r.name == target.name)
          (demote current.name s.domains) (λ r h. ground arith) in
      let one_row =
        count-name-le target.name (demote current.name s.domains)
          (rw (names-demote current.name s.domains) valid.keys) in
      (omega (arith, valid.one), omega arith)

  -- What the transaction leaves behind when it answers.
  pub record IsPromoted (name : Text) (changed : Bool) (after : State) : Type 0 where
    pub valid_after : HasOnePrimary after.domains
    pub same_names : names after.domains ≡ names s.domains
    pub row : DomainRecord
    pub listed : Memᴰ row after.domains
    pub primary : row.is_primary ≡ true
    pub found : host_no_port row.name ≡ host_no_port (host_no_port name)
    pub kept : changed ≡ false → after ≡ s
    pub restarting :
        changed ≡ true
        → (busy_apps s.apps ≡ [])
          × All (λ (a : App). is_active a.status a.container_id ≡ false) after.apps

  abbrev swapped : DomainRecord → DomainRecord → State
  swapped current target = record s {
    domains = promote target.name (demote current.name s.domains);
    apps = map restart_app s.apps;
  }

  swap_primary_lem :
      (current target : DomainRecord)
      → Memᴰ current s.domains
      → current.is_primary ≡ true
      → Memᴰ target s.domains
      → target.name ≢ current.name
      → swap_primary s current.name target.name ≡ ok (true, swapped current target)
  unfolding swap_primary
  swap_primary_lem current target mc pc mt ne =
      let (d, p) = swap_counts current target mc pc mt ne in rw (d, p)

  swapped-IsPromoted :
      (name : Text) (current target : DomainRecord)
      → Memᴰ current s.domains
      → current.is_primary ≡ true
      → Memᴰ target s.domains
      → target.name ≢ current.name
      → host_no_port target.name ≡ host_no_port (host_no_port name)
      → busy_apps s.apps ≡ []
      → IsPromoted name true (swapped current target)
  swapped-IsPromoted name current target mc pc mt ne fits idle =
      let (d, p) = swap_counts current target mc pc mt ne in
      let plain = other-not-primary current target mc pc mt ne in
      let demoted = demote current.name s.domains in
      let listed = mem-demote current.name s.domains target mt (ground arith) in
      let keys = names-promote target.name demoted ∙ names-demote current.name s.domains in
      record {
        valid_after = record {
          one = omega (
            arith,
            count-promote target.name demoted,
            count-demote current.name s.domains,
            valid.one,
            d,
            p,
          );
          keys = rw keys valid.keys;
        };
        same_names = keys;
        row = record target { is_primary = true };
        listed =
            mem-promote target.name demoted target listed (ground (arith, ==_refl target.name));
        primary = refl;
        found = fits;
        kept = λ h. cc;
        restarting = λ _. (idle, restarted s.apps);
      }

  primary_row :
      (current : DomainRecord) × (find? is_primary s.domains ≡ some current)
      × Memᴰ current s.domains
      × (current.is_primary ≡ true)
  primary_row = elim (Option-cases (find? is_primary s.domains)) [
    | inl missed ↦ absurd (
        omega (
          arith,
          valid.one,
          count_of_none is_primary s.domains ((find?-eq-none_iff is_primary s.domains).0 missed),
        ))
    | inr (current, e) ↦
        let (m, p) = find?-eq-some is_primary s.domains current e in (current, e, m, p)
  ]

  same-IsPromoted :
      (name : Text) (current target : DomainRecord)
      → Memᴰ current s.domains
      → current.is_primary ≡ true
      → target.name ≡ current.name
      → host_no_port target.name ≡ host_no_port (host_no_port name)
      → IsPromoted name false s
  same-IsPromoted name current target mc pc same fits = record {
    valid_after = valid;
    same_names = refl;
    row = current;
    listed = mc;
    primary = pc;
    found = ap host_no_port (sym same) ∙ fits;
    kept = λ _. refl;
    restarting = λ h. cc;
  }

  promote_to-IsPromoted :
      (name : Text) (target : DomainRecord) (changed : Bool) (after : State)
      → Memᴰ target s.domains
      → host_no_port target.name ≡ host_no_port (host_no_port name)
      → promote_to s target ≡ ok (changed, after)
      → IsPromoted name changed after
  unfolding promote_to
  promote_to-IsPromoted name target changed after mt fits h =
      let (current, found, mc, pc) = primary_row in
      elim (Bool-cases (target.name == current.name)) [
        | inl e ↦
            let same = (==_iff target.name current.name).0 e in
            let out : ◌≡◌ {A = Bool × State} (false, s) (changed, after) = ground (arith, found) in
            subst (λ (o : Bool × State). IsPromoted name o.0 o.1) out
              (same-IsPromoted name current target mc pc same fits)
        | inr e ↦
            let ne : target.name ≢ current.name = ground (arith, ==_iff target.name current.name) in
            let idle : busy_apps s.apps ≡ [] = ground (arith, found) in
            let swap = swap_primary_lem current target mc pc mt ne in
            let out : ◌≡◌ {A = Bool × State} (true, swapped current target) (changed, after) =
              ground (arith, found, swap) in
            subst (λ (o : Bool × State). IsPromoted name o.0 o.1) out
              (swapped-IsPromoted name current target mc pc mt ne fits idle)
      ]

  promote_to_raises :
      (target : DomainRecord) (e : DomainError)
      → Memᴰ target s.domains
      → promote_to s target ≡ raise e
      → (busy_apps s.apps ≢ []) × (e ≡ apps_busy (busy_apps s.apps))
  unfolding promote_to
  promote_to_raises target e mt h =
      let (current, found, mc, pc) = primary_row in
      elim (Bool-cases (target.name == current.name)) [
        | inl same ↦ absurd (ground (arith, found))
        | inr off ↦
            let ne : target.name ≢ current.name = ground (arith, ==_iff target.name current.name) in
            ground (arith, found, swap_primary_lem current target mc pc mt ne)
      ]

  -- From a table with one primary domain, `set_primary_domain` answers with a table of the same
  -- names that has one primary domain, the one asked for; where it answers False nothing has
  -- changed, and where it answers True no app was being built, started or removed, and no app is
  -- running or has failed with a container.
  pub set_primary_domain-IsPromoted :
      (name : Text) (changed : Bool) (after : State)
      → set_primary_domain s name ≡ ok (changed, after)
      → IsPromoted name changed after
  unfolding set_primary_domain
  set_primary_domain-IsPromoted name changed after h =
      elim (Option-cases (get_record s.domains (host_no_port name))) [
        | inl gone ↦ absurd (ground arith)
        | inr (target, got) ↦
            let (mt, fits) = get_record_sound s.domains (host_no_port name) target got in
            promote_to-IsPromoted name target changed after mt fits (ground arith)
      ]

  -- From such a table it raises in two cases only: no domain has the name, or apps are busy.
  pub set_primary_domain_raises :
      (name : Text) (e : DomainError)
      → set_primary_domain s name ≡ raise e
      → ((get_record s.domains (host_no_port name) ≡ none) × (e ≡ not_found (host_no_port name)))
        ⊎ ((busy_apps s.apps ≢ []) × (e ≡ apps_busy (busy_apps s.apps)))
  unfolding set_primary_domain
  set_primary_domain_raises name e h =
      elim (Option-cases (get_record s.domains (host_no_port name))) [
        | inl gone ↦ inl (gone, ground arith)
        | inr (target, got) ↦
            let (mt, _) = get_record_sound s.domains (host_no_port name) target got in
            inr (promote_to_raises target e mt (ground arith))
      ]
