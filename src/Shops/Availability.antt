-- ===== src/Shops/Availability.antt =====
-- The functions of printsetu-backend/src/shops/shop-availability.ts. Times of day are minutes, as
-- `minutesOf` reads them, and days of the week are numbered as in `DAY_KEYS`. The time zone is a
-- parameter, since `localParts` and `localToInstant` rest on `Intl` and `Date`.
use printsetu.Base.{
  ℕ, zero, suc, ◌+◌, ◌%◌, Bool, true, false, not, ◌&&◌, ◌||◌, Option, none, some, [], ◌∷◌, ltb, any,
  if◌then◌else◌,
}

pub data AvailabilitySource : Type 0 where
  manual schedule override : AvailabilitySource

pub record ShopAvailability : Type 0 where
  pub online : Bool
  pub source : AvailabilitySource
  pub next_change_at : Option ℕ

pub record AvailabilitySettings : Type 0 where
  pub accepting_orders : Bool
  pub auto_schedule : Bool
  pub schedule_override : Option Bool
  pub schedule_override_until : Option ℕ

pub record DayHours : Type 0 where
  pub is_open : Bool
  pub from : ℕ
  pub to : ℕ

-- `OpeningHours`, by the number of the day
abbrev pub OpeningHours : Type 0
OpeningHours = ℕ → DayHours

-- The local day of the week and minute of an instant, and the instant at which the local clock reads
-- a minute some days after the day of another instant.
pub record Zone : Type 0 where
  pub day : ℕ → ℕ
  pub minutes : ℕ → ℕ
  pub at : ℕ → ℕ → ℕ → ℕ

pub record Scheduled : Type 0 where
  pub is_open : Bool
  pub next_change_at : Option ℕ

abbrev pub closed_until : Option ℕ → Scheduled
closed_until t = record { is_open = false; next_change_at = t }

abbrev pub hours_on : OpeningHours → Zone → ℕ → ℕ → DayHours
hours_on hours zone now i = hours ((zone.day now + i) % 7)

-- The days after today: the first open one.
unfoldable pub scan : OpeningHours → Zone → ℕ → ℕ → ℕ → Scheduled
scan hours zone now zero i = closed_until none
scan hours zone now (suc left) i =
    let d = hours_on hours zone now i in
    let rest = scan hours zone now left (suc i) in
    if d.is_open then closed_until (some (zone.at now i d.from)) else rest

-- Today, and then the seven days that follow.
unfoldable pub scheduled_status : OpeningHours → ℕ → Zone → Scheduled
scheduled_status hours now zone =
    let d = hours_on hours zone now 0 in
    let rest = scan hours zone now 7 1 in
    if d.is_open
    then (if ltb (zone.minutes now) d.from
        then closed_until (some (zone.at now 0 d.from))
        else if ltb (zone.minutes now) d.to
        then record { is_open = true; next_change_at = some (zone.at now 0 d.to) }
        else rest)
    else rest

-- `hasOpenDay`
unfoldable pub has_open_day : Option OpeningHours → Bool
has_open_day none = false
has_open_day (some hours) = any (λ d. (hours d).is_open) (0 ∷ 1 ∷ 2 ∷ 3 ∷ 4 ∷ 5 ∷ 6 ∷ [])

abbrev pub is_later : Option ℕ → ℕ → Bool
is_later none now = true
is_later (some t) now = ltb now t

abbrev pub is_set : Option Bool → Bool
is_set none = false
is_set (some b) = true

-- `overrideActive`
unfoldable pub override_active : AvailabilitySettings → ℕ → Bool
override_active s now = is_set s.schedule_override && is_later s.schedule_override_until now

abbrev by_hand : AvailabilitySettings → ShopAvailability
by_hand s = record {
  online = s.accepting_orders;
  source = AvailabilitySource.manual;
  next_change_at = none;
}

abbrev pub by_schedule : Scheduled → ShopAvailability
by_schedule s = record {
  online = s.is_open;
  source = AvailabilitySource.schedule;
  next_change_at = s.next_change_at;
}

abbrev pub chosen : Option Bool → Bool
chosen none = false
chosen (some b) = b

abbrev overridden : AvailabilitySettings → ShopAvailability
overridden s = record {
  online = chosen s.schedule_override;
  source = AvailabilitySource.override;
  next_change_at = s.schedule_override_until;
}

-- With opening hours that have an open day.
unfoldable pub on_schedule : AvailabilitySettings → OpeningHours → ℕ → Zone → ShopAvailability
on_schedule s hours now zone =
    if override_active s now then overridden s else by_schedule (scheduled_status hours now zone)

-- `effectiveAvailability`
unfoldable pub effective_availability :
    AvailabilitySettings → Option OpeningHours → ℕ → Zone → ShopAvailability
effective_availability s none now zone = by_hand s
effective_availability s (some hours) now zone =
    if not s.auto_schedule || not (has_open_day (some hours))
    then by_hand s
    else on_schedule s hours now zone

abbrev pub same_flag : Bool → Bool → Bool
same_flag true b = b
same_flag false b = not b

-- `overrideFor`, as the change of the two columns
unfoldable pub override_for :
    Bool → OpeningHours → ℕ → Zone → AvailabilitySettings → AvailabilitySettings
override_for online hours now zone s =
    let found = scheduled_status hours now zone in
    if same_flag found.is_open online
    then record s { schedule_override = none; schedule_override_until = none }
    else record s {
      schedule_override = some online;
      schedule_override_until = found.next_change_at;
    }
