-- ===== src/Guards/Memory/Debounced.antt =====
-- When the memory guard of compute_space/src/compute_space/core/memory_guard.py warns.
use mathlib.Core.Path.{subst}
use cloud_in_a_bottle.Shared.{
  ==_iff, ==_refl, ==_sym, Bool, Bool-cases, List, List_eq, Option, Order, Text, [], ap, arith,
  count, elem, false, filter, if◌then◌else◌, inl, inr, map, none, not, refl, some, sym, true, ℕ,
  ℕ_eq, ◌&&◌, ◌+◌, ◌==◌, ◌||◌, ◌∙◌, ◌∷◌, ◌≡◌,
}
use cloud_in_a_bottle.Guards.Memory.{
  Observation, check_memory_pressure, check_reading, discard_app, check_pressure,
}

abbrev pub readings_of : {P : Type 0} → Text → List (Observation P) → List (Option P)
readings_of app_id rows =
    map (λ row. row.memory_percent) (filter (λ row. row.app_id == app_id) rows)

abbrev pub warnings_of : Text → List Text → ℕ
warnings_of app_id warned = count (λ a. a == app_id) warned

module _ {P : Type 0} ⦃by_order : Order P⦄ (warn_percent clear_percent : P) where
  -- One app by itself: whether it has been high since it was last low.
  abbrev pub high_after : Bool → Option P → Bool
  high_after high none = high
  high_after high (some percent) =
      if by_order.lt percent clear_percent
      then false
      else not (by_order.lt percent warn_percent) || high

  abbrev pub is_high : Bool → List (Option P) → Bool
  is_high high [] = high
  is_high high (reading ∷ readings) = is_high (high_after high reading) readings

  -- How often it became high.
  abbrev pub rises : Bool → List (Option P) → ℕ
  rises high [] = 0
  rises high (reading ∷ readings) =
      (if not high && high_after high reading then 1 else 0)
      + rises (high_after high reading) readings

  elem-discard_app :
      (app other : Text) (notified : List Text)
      → elem app (discard_app other notified) ≡ (elem app notified && not (app == other))
  unfolding discard_app
  elem-discard_app app other [] = refl
  elem-discard_app app other (a ∷ notified) =
      ground
        (arith, elem-discard_app app other notified, ==_iff app a, ==_iff a other, ==_iff app other)

  check-own :
      (app : Text) (reading : Option P) (notified : List Text)
      → (elem app (check_reading warn_percent clear_percent notified app reading).0
          ≡ high_after (elem app notified) reading)
        × ((check_reading warn_percent clear_percent notified app reading).1
            ≡ (not (elem app notified) && high_after (elem app notified) reading))
  unfolding check_reading
  check-own app none notified = (refl, ground arith)
  check-own app (some percent) notified =
      ground (arith, elem-discard_app app app notified, ==_refl app)

  check-other :
      (app other : Text) (reading : Option P) (notified : List Text)
      → (other == app) ≡ false
      → elem app (check_reading warn_percent clear_percent notified other reading).0
        ≡ elem app notified
  unfolding check_reading
  check-other app other none notified apart = refl
  check-other app other (some percent) notified apart =
      ground (arith, elem-discard_app app other notified, ==_sym other app)

  check-same :
      (app other : Text) (reading : Option P) (notified : List Text)
      → (other == app) ≡ true
      → (elem app (check_reading warn_percent clear_percent notified other reading).0
          ≡ high_after (elem app notified) reading)
        × ((check_reading warn_percent clear_percent notified other reading).1
            ≡ (not (elem app notified) && high_after (elem app notified) reading))
  check-same app other reading notified own =
      subst
        (λ o.
          (elem app (check_reading warn_percent clear_percent notified o reading).0
            ≡ high_after (elem app notified) reading)
          × ((check_reading warn_percent clear_percent notified o reading).1
              ≡ (not (elem app notified) && high_after (elem app notified) reading)))
        (sym ((==_iff other app).0 own)) (check-own app reading notified)

  warnings-other :
      (app other : Text) (warned : Bool) (later : List Text)
      → (other == app) ≡ false
      → warnings_of app (if warned then other ∷ later else later) ≡ warnings_of app later
  warnings-other app other true later apart = rw apart refl
  warnings-other app other false later apart = refl

  warnings-own :
      (app other : Text) (warned : Bool) (later : List Text)
      → (other == app) ≡ true
      → warnings_of app (if warned then other ∷ later else later)
        ≡ (if warned then 1 else 0) + warnings_of app later
  warnings-own app other true later own = rw own (omega arith)
  warnings-own app other false later own = omega arith

  -- The guard keeps one state for each app, which the readings of other apps do not change: after any
  -- number of checks an app is marked exactly if it has been at the warning level since it was last
  -- below the clearing level (or was marked before and has not been below it), and the owner has been
  -- warned once for each time that this began.
  pub check_pressure-debounced :
      (app : Text) (notified : List Text) (rows : List (Observation P))
      → (elem app (check_pressure warn_percent clear_percent notified rows).0
          ≡ is_high (elem app notified) (readings_of app rows))
        × (warnings_of app (check_pressure warn_percent clear_percent notified rows).1
            ≡ rises (elem app notified) (readings_of app rows))
  unfolding check_pressure check_memory_pressure
  check_pressure-debounced app notified [] = (refl, refl)
  check_pressure-debounced app notified (row ∷ rows) =
      let checked =
        check_reading warn_percent clear_percent notified row.app_id row.memory_percent in
      let (marked, warned) = check_pressure-debounced app checked.0 rows in
      let later = (check_pressure warn_percent clear_percent checked.0 rows).1 in
      elim (Bool-cases (row.app_id == app)) [
        | inr apart ↦
            let same = check-other app row.app_id row.memory_percent notified apart in
            rw apart (
              marked ∙ ap (λ b. is_high b (readings_of app rows)) same,
              warnings-other app row.app_id checked.1 later apart
                  ∙ warned
                  ∙ ap (λ b. rises b (readings_of app rows)) same,
            )
        | inl own ↦
            let risen : ℕ =
              if not (elem app notified) && high_after (elem app notified) row.memory_percent
              then 1
              else 0 in
            let (same, warning) = check-same app row.app_id row.memory_percent notified own in
            rw own (
              marked ∙ ap (λ b. is_high b (readings_of app rows)) same,
              warnings-own app row.app_id checked.1 later own
                  ∙ ap (λ b. (if b then 1 else 0) + warnings_of app later) warning
                  ∙ ap (λ n. risen + n) (warned ∙ ap (λ b. rises b (readings_of app rows)) same),
            )
      ]
