-- ===== src/Billing/Cycles.antt =====
-- printsetu-backend/src/subscriptions/subscription.constants.ts: days, billing cycles and their dates.
-- Instants are milliseconds since the start of 1970 in UTC, and a month has the number of months since
-- then. Plans are those of printsetu-backend/prisma/schema.prisma, with whole hundredths as prices.
use printsetu.Base.{
  ℕ, zero, suc, ◌+◌, ◌-◌, ◌*◌, ◌/◌, ◌%◌, min, Bool, true, false, not, ◌&&◌, ◌||◌, Option, ◌==◌, ltb,
  if◌then◌else◌,
}

pub data BillingCycle : Type 0 where
  daily monthly yearly : BillingCycle

pub record Plan : Type 0 where
  pub id : ℕ
  pub daily_price : ℕ
  pub monthly_price : ℕ
  pub yearly_price : ℕ
  pub trial_days : ℕ
  pub max_tokens_per_day : Option ℕ
  pub max_prints_per_month : Option ℕ
  pub max_printers : Option ℕ
  pub analytics_access : Bool
  pub is_active : Bool

abbrev pub day_ms : ℕ
day_ms = 86400000

abbrev pub days_to_ms : ℕ → ℕ
days_to_ms days = days * day_ms

abbrev pub add_days : ℕ → ℕ → ℕ
add_days date days = date + days_to_ms days

abbrev pub same_cycle : BillingCycle → BillingCycle → Bool
same_cycle BillingCycle.daily BillingCycle.daily = true
same_cycle BillingCycle.monthly BillingCycle.monthly = true
same_cycle BillingCycle.yearly BillingCycle.yearly = true
same_cycle _ _ = false

abbrev pub is_leap_year : ℕ → Bool
is_leap_year y = (y % 4 == 0) && (not (y % 100 == 0) || (y % 400 == 0))

abbrev february : Bool → ℕ
february true = 29
february false = 28

abbrev has_30_days : ℕ → Bool
has_30_days m = (m == 3) || (m == 5) || (m == 8) || (m == 10)

-- `new Date(Date.UTC(year, month + 1, 0)).getUTCDate()`
unfoldable pub days_in_month : ℕ → ℕ
days_in_month n =
    if n % 12 == 1
    then february (is_leap_year (1970 + n / 12))
    else if has_30_days (n % 12)
    then 30
    else 31

-- The days before a month.
unfoldable pub month_start : ℕ → ℕ
month_start zero = 0
month_start (suc n) = month_start n + days_in_month n

pub record MonthDay : Type 0 where
  pub month : ℕ
  pub day : ℕ

-- The month of the day `d` after the start of the month `n`, and the days before it in its month.
unfoldable pub month_from : ℕ → ℕ → ℕ → MonthDay
month_from zero n d = record { month = n; day = d }
month_from (suc fuel) n d =
    let rest = month_from fuel (suc n) (d - days_in_month n) in
    if ltb d (days_in_month n) then record { month = n; day = d } else rest

-- No month is shorter than 28 days.
unfoldable pub month_of : ℕ → MonthDay
month_of d = month_from (suc (d / 28)) 0 d

-- `setUTCDate(1)`, `setUTCMonth`, and the day again, or the last one of a month that is too short
unfoldable pub add_months : ℕ → ℕ → ℕ
add_months date months =
    let at = month_of (date / day_ms) in
    let n = at.month + months in
    (month_start n + min at.day (days_in_month n - 1)) * day_ms + date % day_ms

unfoldable pub add_cycle : ℕ → BillingCycle → ℕ
add_cycle date BillingCycle.daily = add_days date 1
add_cycle date BillingCycle.monthly = add_months date 1
add_cycle date BillingCycle.yearly = add_months date 12

unfoldable pub price_for : Plan → BillingCycle → ℕ
price_for plan BillingCycle.daily = plan.daily_price
price_for plan BillingCycle.monthly = plan.monthly_price
price_for plan BillingCycle.yearly = plan.yearly_price

-- `monthlyEquivalent`, in twelfths of a hundredth
unfoldable pub monthly_equivalent : Plan → BillingCycle → ℕ
monthly_equivalent plan BillingCycle.daily = plan.daily_price * 30 * 12
monthly_equivalent plan BillingCycle.monthly = plan.monthly_price * 12
monthly_equivalent plan BillingCycle.yearly = plan.yearly_price
