-- ===== src/Shops/Switch.antt =====
-- The opening hours, and the switch that overrides them.
use printsetu.Base.{ℕ, zero, suc, ◌<◌, ltb, leb, Bool, true, false, ◌&&◌, some, ◌≡◌, refl, arith}
use printsetu.Shops.Availability.{
  AvailabilitySettings, OpeningHours, Zone, scan, scheduled_status, hours_on, has_open_day,
  override_active, effective_availability, on_schedule, override_for, is_later,
}

module _ (hours : OpeningHours) (now : ℕ) (zone : Zone) where
  scan_closed : (left i : ℕ) → (scan hours zone now left i).is_open ≡ false
  unfolding scan
  scan_closed zero i = refl
  scan_closed (suc left) i = ground (arith, scan_closed left (suc i))

  -- By the schedule a shop is open exactly where today is an open day and the local minute lies
  -- between opening, which counts, and closing, which does not.
  pub scheduled_status_lem :
      let today = hours_on hours zone now 0 in
      (scheduled_status hours now zone).is_open
      ≡ (today.is_open && leb today.from (zone.minutes now) && ltb (zone.minutes now) today.to)
  unfolding scheduled_status
  scheduled_status_lem = ground (arith, scan_closed 7 1)

  -- What the zone's clock says of later readings: of a later day, or of a later minute of today.
  pub record IsForward : Type 0 where
    pub later_day : (i m : ℕ) → 0 < i → now < zone.at now i m
    pub later_minute : (m : ℕ) → zone.minutes now < m → now < zone.at now 0 m

  module _ (f : IsForward) where
    scan_later :
        (left i : ℕ) → 0 < i → is_later (scan hours zone now left i).next_change_at now ≡ true
    unfolding scan
    scan_later zero i h = refl
    scan_later (suc left) i h = ground (
      arith,
      scan_later left (suc i) (omega arith),
      f.later_day i (hours_on hours zone now i).from h,
    )

    -- The next change by the schedule is not over.
    next_later : is_later (scheduled_status hours now zone).next_change_at now ≡ true
    unfolding scheduled_status
    next_later = ground (
      arith,
      scan_later 7 1 (omega arith),
      f.later_minute (hours_on hours zone now 0).from,
      f.later_minute (hours_on hours zone now 0).to,
    )

    -- Where a shop is on its schedule, flipping the switch makes it what the shopkeeper asked for at
    -- once, whatever the schedule and an earlier override say.
    pub override_for-online :
        (s : AvailabilitySettings) (online : Bool)
        → s.auto_schedule ≡ true
        → has_open_day (some hours) ≡ true
        → (effective_availability
            (override_for online hours now zone s)
            (some hours)
            now
            zone).online
          ≡ online
    unfolding effective_availability override_for on_schedule override_active
    override_for-online s true auto open' = ground (arith, next_later)
    override_for-online s false auto open' = ground (arith, next_later)
