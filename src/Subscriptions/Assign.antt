-- ===== src/Subscriptions/Assign.antt =====
-- printsetu-backend/src/subscriptions/subscriptions.service.ts: the first subscription of a shop.
use printsetu.Base.{
  ℕ, Bool, true, false, ◌&&◌, Option, none, some, [], ◌∷◌, ◌++◌, ltb, get_or, is_some, pure, gets,
  modify, throw_if, or_throw, branch, transaction, if◌then◌else◌, ◌>>=◌, ◌>>◌,
}
use printsetu.Print.Types.{Text}
use printsetu.Billing.Cycles.{BillingCycle, Plan, add_days, add_cycle, price_for}
use printsetu.Billing.Invoices.{InvoiceKind, InvoiceInput, PaymentMethod, Payment, mark_paid}
use printsetu.Subscriptions.Store.{
  SubscriptionStatus, Subscription, BillingSettings, EventType, Store, SubscriptionError, Method,
  find_subscription, find_shop, on_ledger,
}
use printsetu.Subscriptions.Records.{record_event, active_plan, create_invoice}

-- `AssignPlanDto`
pub record AssignPlanDto : Type 0 where
  pub plan_id : ℕ
  pub cycle : BillingCycle
  pub start_trial : Bool
  pub mark_paid : Bool
  pub payment_method : Option PaymentMethod
  pub payment_reference : Option Text
  pub auto_renew : Option Bool

-- What the new row starts with.
pub record Terms : Type 0 where
  pub status : SubscriptionStatus
  pub period_end : ℕ
  pub trial_ends_at : Option ℕ
  pub grace_ends_at : Option ℕ

abbrev pub trial_terms : ℕ → Plan → Terms
trial_terms now plan = record {
  status = SubscriptionStatus.trial;
  period_end = add_days now plan.trial_days;
  trial_ends_at = some (add_days now plan.trial_days);
  grace_ends_at = none;
}

abbrev pub active_terms : ℕ → BillingCycle → Terms
active_terms now cycle = record {
  status = SubscriptionStatus.active;
  period_end = add_cycle now cycle;
  trial_ends_at = none;
  grace_ends_at = none;
}

abbrev pub unpaid_terms : ℕ → BillingCycle → BillingSettings → Terms
unpaid_terms now cycle settings = record {
  status = SubscriptionStatus.payment_pending;
  period_end = add_cycle now cycle;
  trial_ends_at = none;
  grace_ends_at = some (add_days now settings.grace_days);
}

abbrev first_invoice : ℕ → ℕ → AssignPlanDto → Plan → ℕ → InvoiceInput
first_invoice now shop dto plan n = record {
  id = n;
  shop_id = shop;
  plan_id = plan.id;
  cycle = dto.cycle;
  kind = InvoiceKind.initial;
  period_start = now;
  period_end = add_cycle now dto.cycle;
  amount = price_for plan dto.cycle;
  due_date = now;
}

-- Gateway 0 stands for MANUAL, the default.
abbrev pub new_subscription : ℕ → ℕ → AssignPlanDto → Plan → Terms → Subscription
new_subscription now shop dto plan t = record {
  shop_id = shop;
  plan_id = plan.id;
  cycle = dto.cycle;
  status = t.status;
  start_date = now;
  current_period_start = now;
  current_period_end = t.period_end;
  trial_ends_at = t.trial_ends_at;
  grace_ends_at = t.grace_ends_at;
  past_due_since = none;
  auto_renew = get_or dto.auto_renew true;
  gateway = 0;
  cancel_at_period_end = false;
  cancelled_at = none;
  cancel_reason = none;
  pending_plan_id = none;
  pending_cycle = none;
  automation_paused = false;
  paused_until = none;
  notification_channels = none;
  reminders_sent = [];
}

abbrev pub append_subscription : Subscription → Store → Store
append_subscription s db = record db { subscriptions = db.subscriptions ++ (s ∷ []) }

abbrev first_payment : AssignPlanDto → Payment
first_payment dto = record {
  method = get_or dto.payment_method PaymentMethod.cash;
  reference = dto.payment_reference;
  at = none;
}

-- `shopSubscription.create`, where the schema allows one row for a shop
unfoldable pub insert_subscription : Subscription → Method (Unit {0})
insert_subscription s = do
  taken ← gets (λ db. is_some (find_subscription s.shop_id db))
  throw_if taken SubscriptionError.duplicate_shop
  modify (append_subscription s)

-- The first invoice, paid at once or within the grace period.
unfoldable pub bill_first : ℕ → ℕ → AssignPlanDto → Plan → BillingSettings → Method Terms
bill_first now shop dto plan settings = do
  invoice ← create_invoice (first_invoice now shop dto plan)
  branch dto.mark_paid
      (on_ledger (mark_paid now invoice.id (first_payment dto))
        >> pure (active_terms now dto.cycle))
      (pure (unpaid_terms now dto.cycle settings))

abbrev starts_trial : AssignPlanDto → Plan → Bool
starts_trial dto plan = dto.start_trial && ltb 0 plan.trial_days

unfoldable pub open_subscription :
    ℕ → ℕ → AssignPlanDto → ℕ → Plan → BillingSettings → Method Subscription
open_subscription now shop dto actor plan settings = do
  terms ← branch (starts_trial dto plan) (pure (trial_terms now plan)) (
      branch (ltb 0 (price_for plan dto.cycle)) (bill_first now shop dto plan settings)
        (pure (active_terms now dto.cycle)))
  insert_subscription (new_subscription now shop dto plan terms)
  record_event shop (some actor)
      (if starts_trial dto plan then EventType.trial_started else EventType.subscription_created)
  pure (new_subscription now shop dto plan terms)

-- `assign`
unfoldable pub assign : ℕ → ℕ → AssignPlanDto → ℕ → Method Subscription
assign now shop dto actor = do
  owner ← gets (find_shop shop)
  _ ← or_throw owner SubscriptionError.shop_not_found
  taken ← gets (λ db. is_some (find_subscription shop db))
  throw_if taken SubscriptionError.already_subscribed
  plan ← active_plan dto.plan_id
  settings ← gets (λ db. db.settings)
  transaction (open_subscription now shop dto actor plan settings)
