-- ===== src/Shops/Tests.antt =====
-- A shop that opens from nine to six, in a time zone without an offset.
use printsetu.Base.{
  ℕ, ◌+◌, ◌*◌, ◌/◌, ◌%◌, true, false, none, some, ◌≡◌, refl, arith, ◌&&◌, leb, ltb,
}
use printsetu.Shops.Availability.{
  AvailabilitySettings, OpeningHours, Zone, effective_availability, override_for, has_open_day,
  scheduled_status,
}
use printsetu.Shops.Switch.{IsForward, override_for-online, scheduled_status_lem}

abbrev hours : OpeningHours
hours d = record { is_open = true; from = 540; to = 1080 }

abbrev utc : Zone
utc = record {
  day = λ t. (t / 86400000) % 7;
  minutes = λ t. (t / 60000) % 1440;
  at = λ t i m. (t / 86400000 + i) * 86400000 + m * 60000;
}

-- Ten in the morning of the first day.
abbrev ten : ℕ
ten = 36000000

ten-IsForward : IsForward hours ten utc
ten-IsForward = record { later_day = λ i m h. omega arith; later_minute = λ m h. omega arith }

abbrev settings : AvailabilitySettings
settings = record {
  accepting_orders = true;
  auto_schedule = true;
  schedule_override = none;
  schedule_override_until = none;
}

override_for-online_example :
    (effective_availability (override_for false hours ten utc settings) (some hours) ten utc).online
    ≡ false
unfolding has_open_day
override_for-online_example =
    override_for-online hours ten utc ten-IsForward settings false refl refl

scheduled_status_lem_example :
    (scheduled_status hours ten utc).is_open ≡ (true && leb 540 600 && ltb 600 1080)
scheduled_status_lem_example = scheduled_status_lem hours ten utc
