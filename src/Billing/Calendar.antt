-- ===== src/Billing/Calendar.antt =====
-- Adding billing cycles to dates.
use printsetu.Base.{
  ℕ, zero, suc, ◌+◌, ◌-◌, ◌*◌, ◌/◌, ◌%◌, ◌≤◌, ◌<◌, min, ltb, ◌≡◌, refl, ap, ◌∙◌, arith, inl, inr,
  Bool-cases, ltb_iff, ltb-false,
}
use printsetu.Billing.Cycles.{
  BillingCycle, MonthDay, day_ms, days_in_month, month_start, month_from, month_of, add_months,
  add_cycle,
}

days_in_month-bounds : (n : ℕ) → (28 ≤ days_in_month n) × (days_in_month n ≤ 31)
unfolding days_in_month
days_in_month-bounds n = ground arith

-- What it means to be the month and the day of a day.
abbrev pub IsDayOf : ℕ → MonthDay → Type 0
IsDayOf d at = (at.day < days_in_month at.month) × (month_start at.month + at.day ≡ d)

month_from-IsDayOf :
    (fuel n d : ℕ) → d < fuel * 28 → IsDayOf (month_start n + d) (month_from fuel n d)
unfolding month_from month_start
month_from-IsDayOf zero n d h = omega arith
month_from-IsDayOf (suc fuel) n d h = elim (Bool-cases (ltb d (days_in_month n))) [
  | inl t ↦ rw t ((ltb_iff d (days_in_month n)).0 t, refl)
  | inr f ↦
      let long = ltb-false d (days_in_month n) f in
      let rest =
        month_from-IsDayOf fuel (suc n) (d - days_in_month n)
          (omega (arith, days_in_month-bounds n)) in
      rw f (rest.0, omega (arith, rest.1))
]

-- The search for the month of a day has enough fuel: the day lies in the month that is found, at the
-- place that is found.
pub month_of_lem : (d : ℕ) → IsDayOf d (month_of d)
unfolding month_start month_of
month_of_lem d =
    let at = month_from-IsDayOf (suc (d / 28)) 0 d (omega arith) in (at.0, omega (arith, at.1))

month_start_mono : (m n : ℕ) → m < n → month_start m + days_in_month m ≤ month_start n
unfolding month_start
month_start_mono m zero h = omega arith
month_start_mono m (suc n) h = elim (Bool-cases (ltb m n)) [
  | inl t ↦ omega (arith, month_start_mono m n ((ltb_iff m n).0 t))
  | inr f ↦
      let same : m ≡ n = omega (arith, ltb-false m n f) in
      omega (arith, ap (λ k. month_start k + days_in_month k) same)
]

-- A day has one month and one place in it.
month_unique :
    (d m i n j : ℕ)
    → IsDayOf d (record { month = m; day = i })
    → IsDayOf d (record { month = n; day = j })
    → (m ≡ n) × (i ≡ j)
month_unique d m i n j h k = ground (arith, month_start_mono m n, month_start_mono n m)

whole_days :
    (a t : ℕ)
    → ((a * day_ms + t % day_ms) / day_ms ≡ a) × ((a * day_ms + t % day_ms) % day_ms ≡ t % day_ms)
whole_days a t = (omega arith, omega arith)

-- The day of the month, or the last one.
abbrev pub clamped : ℕ → ℕ → ℕ
clamped n d = min d (days_in_month n - 1)

-- Adding months to a date moves on by that many months of the calendar, stays on the same day of the
-- month or, where the month is too short, on its last day, and leaves the time of the day.
pub add_months_lem :
    (date months : ℕ)
    → let at = month_of (date / day_ms) in
      let new = month_of (add_months date months / day_ms) in
      (new.month ≡ at.month + months)
      × (new.day ≡ clamped (at.month + months) at.day)
      × (add_months date months % day_ms ≡ date % day_ms)
unfolding add_months
add_months_lem date months =
    let at = month_of (date / day_ms) in
    let n = at.month + months in
    let d = clamped n at.day in
    let (day, time) = whole_days (month_start n + d) date in
    let fits : d < days_in_month n = omega (arith, days_in_month-bounds n) in
    let (m, i) =
      month_unique (month_start n + d) (month_of (month_start n + d)).month
        (month_of (month_start n + d)).day n d (month_of_lem (month_start n + d)) (fits, refl) in
    (ap (λ x. (month_of x).month) day ∙ m, ap (λ x. (month_of x).day) day ∙ i, time)

next_month : (n : ℕ) → month_start (n + 1) ≡ month_start n + days_in_month n
unfolding month_start
next_month n = let e : n + 1 ≡ suc n = omega arith in ap month_start e

-- One month's addition moves a date on by 28 days at least and 31 at most.
pub add_months-bounds :
    (date : ℕ) → (date + 28 * day_ms ≤ add_months date 1) × (add_months date 1 ≤ date + 31 * day_ms)
unfolding add_months
add_months-bounds date =
    let at = month_of (date / day_ms) in
    let (low, high) = days_in_month-bounds at.month in
    let (low', high') = days_in_month-bounds (at.month + 1) in
    let (within', is_day) = month_of_lem (date / day_ms) in
    let next = next_month at.month in (omega arith, omega arith)

add_months-later : (date months : ℕ) → 0 < months → date < add_months date months
unfolding add_months
add_months-later date months h =
    let at = month_of (date / day_ms) in
    let (within', is_day) = month_of_lem (date / day_ms) in
    let on = month_start_mono at.month (at.month + months) (omega arith) in omega arith

-- A cycle ends after it starts.
pub add_cycle-later : (date : ℕ) (cycle : BillingCycle) → date < add_cycle date cycle
unfolding add_cycle
add_cycle-later date BillingCycle.daily = omega arith
add_cycle-later date BillingCycle.monthly = add_months-later date 1 (omega arith)
add_cycle-later date BillingCycle.yearly = add_months-later date 12 (omega arith)
