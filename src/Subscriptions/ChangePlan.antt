-- ===== src/Subscriptions/ChangePlan.antt =====
-- printsetu-backend/src/subscriptions/subscriptions.service.ts: changing the plan, at once with a
-- prorated charge, or at the next renewal. Amounts are exact fractions of whole hundredths, rounded once.
use printsetu.Base.{
  ℕ, ◌+◌, ◌-◌, ◌*◌, ◌/◌, Bool, true, false, not, ◌&&◌, ◌||◌, Option, none, some, ◌==◌, ltb, get_or,
  is_some, pure, gets, throw_if, branch, transaction, if◌then◌else◌, ◌>>=◌, ◌>>◌,
}
use printsetu.Billing.Cycles.{
  BillingCycle, Plan, same_cycle, add_cycle, price_for, monthly_equivalent,
}
use printsetu.Billing.Invoices.{InvoiceKind, InvoiceInput, Invoice}
use printsetu.Subscriptions.Store.{
  Subscription, UpgradeTiming, DowngradeTiming, BillingSettings, EventType, SubscriptionError,
  Method, update,
}
use printsetu.Subscriptions.Statuses.{is_trial, is_active}
use printsetu.Subscriptions.Records.{record_event, load, plan_of, active_plan, create_invoice}

-- `ChangePlanDto`
pub record ChangePlanDto : Type 0 where
  pub plan_id : ℕ
  pub cycle : Option BillingCycle
  pub apply_now : Option Bool

pub record PlanChange : Type 0 where
  pub applied : Bool
  pub effective_on : ℕ
  pub invoice : Option Invoice
  pub subscription : Subscription

abbrev is_prorated : UpgradeTiming → Bool
is_prorated UpgradeTiming.immediate_prorated = true
is_prorated UpgradeTiming.next_cycle = false

abbrev is_immediate : DowngradeTiming → Bool
is_immediate DowngradeTiming.end_of_cycle = false
is_immediate DowngradeTiming.immediate = true

-- More than half a hundredth a month, which is six twelfths.
abbrev pub is_upgrade : Subscription → Plan → Plan → BillingCycle → Bool
is_upgrade sub old next cycle =
    ltb (monthly_equivalent old sub.cycle + 6) (monthly_equivalent next cycle)

abbrev is_downgrade : Subscription → Plan → Plan → BillingCycle → Bool
is_downgrade sub old next cycle =
    ltb (monthly_equivalent next cycle + 6) (monthly_equivalent old sub.cycle)

abbrev by_settings : BillingSettings → Bool → Bool → Bool
by_settings settings up down =
    if up
    then is_prorated settings.upgrade_timing
    else if down
    then is_immediate settings.downgrade_timing
    else true

-- Whether the new plan starts now.
unfoldable pub applies_now :
    BillingSettings → ChangePlanDto → Subscription → Plan → Plan → BillingCycle → Bool
applies_now settings dto sub old next cycle =
    let up = is_upgrade sub old next cycle in
    let asked = get_or dto.apply_now (by_settings settings up (is_downgrade sub old next cycle)) in
    if not up && not (same_cycle cycle sub.cycle) && is_active sub.status then false else asked

-- A charge as a fraction of hundredths.
pub record Charge : Type 0 where
  pub numerator : ℕ
  pub denominator : ℕ

-- `total` and `remaining` of the paid period, which counts as used up where it is empty.
abbrev period_total : Subscription → ℕ
period_total sub =
    let total = sub.current_period_end - sub.current_period_start in if total == 0 then 1 else total

abbrev period_remaining : ℕ → Subscription → ℕ
period_remaining now sub =
    if sub.current_period_end - sub.current_period_start == 0
    then 0
    else sub.current_period_end - now

-- The price of the new plan for what is left of the period, or for a new one, less the unused credit.
unfoldable pub upgrade_charge : ℕ → Subscription → Plan → Plan → BillingCycle → Charge
upgrade_charge now sub old next cycle =
    let total = period_total sub in
    let remaining = period_remaining now sub in
    let credit = price_for old sub.cycle * remaining in
    let due =
      if same_cycle cycle sub.cycle
      then price_for next cycle * remaining
      else price_for next cycle * total in
    record { numerator = due - credit; denominator = total }

-- `amount > 0.005`
abbrev pub is_charged : Charge → Bool
is_charged c = ltb c.denominator (2 * c.numerator)

-- `round2`
unfoldable pub rounded : Charge → ℕ
rounded c = (2 * c.numerator + c.denominator) / (2 * c.denominator)

abbrev upgraded_end : ℕ → Subscription → BillingCycle → ℕ
upgraded_end now sub cycle =
    if same_cycle cycle sub.cycle then sub.current_period_end else add_cycle now cycle

abbrev upgrade_invoice : ℕ → ℕ → Subscription → Plan → Plan → BillingCycle → ℕ → InvoiceInput
upgrade_invoice now shop sub old next cycle n = record {
  id = n;
  shop_id = shop;
  plan_id = next.id;
  cycle = cycle;
  kind = InvoiceKind.upgrade;
  period_start = now;
  period_end = upgraded_end now sub cycle;
  amount = rounded (upgrade_charge now sub old next cycle);
  due_date = now;
}

abbrev on_plan : Plan → BillingCycle → Subscription → Subscription
on_plan next cycle s = record s {
  plan_id = next.id;
  cycle = cycle;
  pending_plan_id = none;
  pending_cycle = none;
}

abbrev with_new_period : ℕ → BillingCycle → Subscription → Subscription
with_new_period now cycle s = record s {
  current_period_start = now;
  current_period_end = add_cycle now cycle;
}

-- An upgrade of a paid period to another cycle starts a new period.
abbrev pub changed : ℕ → Bool → Plan → BillingCycle → Subscription → Subscription
changed now fresh next cycle s =
    if fresh then with_new_period now cycle (on_plan next cycle s) else on_plan next cycle s

-- The invoice of an upgrade, where one is due.
unfoldable pub bill_upgrade :
    ℕ → ℕ → Subscription → Plan → Plan → BillingCycle → Method (Option Invoice)
bill_upgrade now shop sub old next cycle =
    branch
      (is_active sub.status
        && is_upgrade sub old next cycle
        && is_charged (upgrade_charge now sub old next cycle))
      (create_invoice (upgrade_invoice now shop sub old next cycle) >>= λ i. pure (some i))
      (pure none)

unfoldable pub change_now :
    ℕ → ℕ → Subscription → Plan → Plan → BillingCycle → ℕ → Method (Option Invoice)
change_now now shop sub old next cycle actor = do
  invoice ← bill_upgrade now shop sub old next cycle
  update shop (
      changed now
        (is_active sub.status && is_upgrade sub old next cycle && not (same_cycle cycle sub.cycle))
        next cycle)
  record_event shop (some actor) EventType.plan_changed
  pure invoice

abbrev pub with_pending : Option ℕ → Option BillingCycle → Subscription → Subscription
with_pending plan cycle s = record s { pending_plan_id = plan; pending_cycle = cycle }

unfoldable pub schedule_change : ℕ → Plan → BillingCycle → ℕ → Method (Unit {0})
schedule_change shop next cycle actor = do
  update shop (with_pending (some next.id) (some cycle))
  record_event shop (some actor) EventType.plan_change_scheduled

unfoldable pub apply_change :
    ℕ → ℕ → Subscription → Plan → Plan → BillingCycle → ℕ → Method PlanChange
apply_change now shop sub old next cycle actor = do
  invoice ← transaction (change_now now shop sub old next cycle actor)
  after ← load shop
  pure (record { applied = true; effective_on = now; invoice = invoice; subscription = after })

unfoldable pub put_off : ℕ → Subscription → Plan → BillingCycle → ℕ → Method PlanChange
put_off shop sub next cycle actor = do
  transaction (schedule_change shop next cycle actor)
  after ← load shop
  pure (record {
    applied = false;
    effective_on = sub.current_period_end;
    invoice = none;
    subscription = after;
  })

-- `changePlan`
unfoldable pub change_plan : ℕ → ℕ → ChangePlanDto → ℕ → Method PlanChange
change_plan now shop dto actor = do
  sub ← load shop
  next ← active_plan dto.plan_id
  throw_if (next.id == sub.plan_id && same_cycle (get_or dto.cycle sub.cycle) sub.cycle)
      SubscriptionError.same_plan
  throw_if (not (is_trial sub.status || is_active sub.status)) SubscriptionError.not_changeable
  settings ← gets (λ db. db.settings)
  old ← plan_of sub.plan_id
  branch
      (not (applies_now settings dto sub old next (get_or dto.cycle sub.cycle))
        && is_active sub.status)
      (put_off shop sub next (get_or dto.cycle sub.cycle) actor)
      (apply_change now shop sub old next (get_or dto.cycle sub.cycle) actor)

-- `cancelScheduledChange`
unfoldable pub cancel_scheduled_change : ℕ → ℕ → Method Subscription
cancel_scheduled_change shop actor = do
  sub ← load shop
  throw_if (not (is_some sub.pending_plan_id)) SubscriptionError.no_scheduled_change
  update shop (with_pending none none)
  record_event shop (some actor) EventType.plan_change_cancelled
  load shop
