-- ===== src/Subscriptions/Renewal.antt =====
-- The end of a trial or of a paid period:
-- printsetu-backend/src/subscriptions/billing-automation.service.ts.
use printsetu.Base.{
  ℕ, Bool, false, not, Option, none, some, [], ◌==◌, ltb, get_or, is_some, gets, when, branch,
  if◌then◌else◌, ◌>>=◌, ◌>>◌,
}
use printsetu.Billing.Cycles.{BillingCycle, Plan, add_days, add_cycle, price_for}
use printsetu.Billing.Invoices.{InvoiceKind, Invoice, InvoiceInput, mark_paid}
use printsetu.Subscriptions.Store.{
  SubscriptionStatus, Subscription, BillingSettings, EventType, BillingEvent, Store, Method,
  find_plan, update, on_ledger,
}
use printsetu.Subscriptions.Records.{notify, record_event, plan_of, create_invoice}
use printsetu.Subscriptions.Gateways.{
  ChargeResult, Gateways, charged_by, note_failure, gateway_payment,
}
use printsetu.Subscriptions.Reminders.{trial_end}

abbrev pub cancelled_at_end : ℕ → Subscription → Subscription
cancelled_at_end now s = record s {
  status = SubscriptionStatus.cancelled;
  cancelled_at = some now;
  cancel_at_period_end = false;
  pending_plan_id = none;
  pending_cycle = none;
}

unfoldable pub cancel_at_end : ℕ → Subscription → Method (Unit {0})
cancel_at_end now sub = do
  update sub.shop_id (cancelled_at_end now)
  record_event sub.shop_id none EventType.cancelled
  notify sub.shop_id BillingEvent.cancelled sub.notification_channels

abbrev pub expired_row : Subscription → Subscription
expired_row s = record s { status = SubscriptionStatus.expired }

unfoldable pub expire : Subscription → Method (Unit {0})
expire sub = do
  update sub.shop_id expired_row
  record_event sub.shop_id none EventType.expired
  notify sub.shop_id BillingEvent.past_due sub.notification_channels

-- The next term: its plan and its dates, and whether a scheduled change takes effect.
pub record Renewal : Type 0 where
  pub plan : Plan
  pub cycle : BillingCycle
  pub changes : Bool
  pub start : ℕ
  pub end : ℕ

abbrev term_start : Bool → Subscription → ℕ
term_start from_trial sub = if from_trial then trial_end sub else sub.current_period_end

abbrev renewal_cycle : Option Plan → Subscription → BillingCycle
renewal_cycle none sub = sub.cycle
renewal_cycle (some p) sub = get_or sub.pending_cycle sub.cycle

abbrev pub renewal : Option Plan → Plan → Bool → Subscription → Renewal
renewal pending old from_trial sub = record {
  plan = get_or pending old;
  cycle = renewal_cycle pending sub;
  changes = is_some pending;
  start = term_start from_trial sub;
  end = add_cycle (term_start from_trial sub) (renewal_cycle pending sub);
}

-- `planChange`
abbrev pub with_renewal_plan : Renewal → Subscription → Subscription
with_renewal_plan r s = record s {
  plan_id = if r.changes then r.plan.id else s.plan_id;
  cycle = if r.changes then r.cycle else s.cycle;
  pending_plan_id = if r.changes then none else s.pending_plan_id;
  pending_cycle = if r.changes then none else s.pending_cycle;
}

abbrev pub with_term : Renewal → Subscription → Subscription
with_term r s = record (with_renewal_plan r s) {
  status = SubscriptionStatus.active;
  trial_ends_at = none;
  current_period_start = r.start;
  current_period_end = r.end;
}

abbrev pub with_paid_renewal : Renewal → Subscription → Subscription
with_paid_renewal r s = record (with_term r s) { reminders_sent = [] }

abbrev pub with_grace_period : Renewal → ℕ → Subscription → Subscription
with_grace_period r end s = record (with_renewal_plan r s) {
  status = SubscriptionStatus.payment_pending;
  grace_ends_at = some end;
  reminders_sent = [];
}

unfoldable pub renew_free : Renewal → Subscription → Method (Unit {0})
renew_free r sub = do
  update sub.shop_id (with_term r)
  record_event sub.shop_id none EventType.renewed

abbrev renewal_invoice : ℕ → Subscription → Renewal → ℕ → InvoiceInput
renewal_invoice now sub r n = record {
  id = n;
  shop_id = sub.shop_id;
  plan_id = r.plan.id;
  cycle = r.cycle;
  kind = InvoiceKind.renewal;
  period_start = r.start;
  period_end = r.end;
  amount = price_for r.plan r.cycle;
  due_date = now;
}

unfoldable pub renew_charged :
    ℕ → Renewal → Subscription → Invoice → ChargeResult → Method (Unit {0})
renew_charged now r sub invoice c = do
  _ ← on_ledger (mark_paid now invoice.id (gateway_payment now c))
  update sub.shop_id (with_paid_renewal r)
  record_event sub.shop_id none EventType.renewed
  notify sub.shop_id BillingEvent.paid sub.notification_channels

abbrev first_retry : BillingSettings → ℕ → Option ℕ
first_retry settings now =
    if ltb 0 settings.retry_attempts then some (add_days now settings.retry_interval_days) else none

unfoldable pub renew_unpaid : BillingSettings → ℕ → Renewal → Subscription → Method (Unit {0})
renew_unpaid settings now r sub = do
  update sub.shop_id (with_grace_period r (add_days now settings.grace_days))
  record_event sub.shop_id none EventType.payment_failed
  notify sub.shop_id BillingEvent.payment_failed sub.notification_channels

-- What follows the attempt to charge, where a gateway is connected.
unfoldable pub after_charge :
    BillingSettings → ℕ → Renewal → Subscription → Invoice → Option ChargeResult → Method (Unit {0})
after_charge settings now r sub invoice none = renew_unpaid settings now r sub
after_charge settings now r sub invoice (some c) =
    branch c.succeeded (renew_charged now r sub invoice c)
      (note_failure invoice.id 1 c (first_retry settings now) >> renew_unpaid settings now r sub)

unfoldable pub renew_priced :
    Gateways → BillingSettings → ℕ → Renewal → Subscription → Method (Unit {0})
renew_priced gateways settings now r sub = do
  invoice ← create_invoice (renewal_invoice now sub r)
  after_charge settings now r sub invoice (charged_by (gateways sub.gateway) invoice)

abbrev pub pending_plan : Subscription → Store → Option Plan
pending_plan sub db = elim sub.pending_plan_id [ none ↦ none | some k ↦ find_plan k db ]

unfoldable pub renew_term :
    Gateways → BillingSettings → ℕ → Renewal → Subscription → Method (Unit {0})
renew_term gateways settings now r sub = do
  when r.changes (record_event sub.shop_id none EventType.plan_changed)
  branch (price_for r.plan r.cycle == 0) (renew_free r sub)
      (renew_priced gateways settings now r sub)

unfoldable pub renew : Gateways → BillingSettings → ℕ → Bool → Subscription → Method (Unit {0})
renew gateways settings now from_trial sub = do
  old ← plan_of sub.plan_id
  pending ← gets (pending_plan sub)
  renew_term gateways settings now (renewal pending old from_trial sub) sub

-- `endOfTerm`
unfoldable pub end_of_term :
    Gateways → BillingSettings → ℕ → Bool → Subscription → Method (Unit {0})
end_of_term gateways settings now from_trial sub =
    branch sub.cancel_at_period_end (cancel_at_end now sub)
      (branch (not sub.auto_renew) (expire sub) (renew gateways settings now from_trial sub))
