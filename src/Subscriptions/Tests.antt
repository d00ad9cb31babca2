-- ===== src/Subscriptions/Tests.antt =====
-- Subscriptions of two shops, looked at by the periodic check.
use printsetu.Base.{
  leb_iff, inr, ok, err, find_many, ◌↔◌, ◌*◌, true, false, none, some, List, [], ◌∷◌, ◌≡◌, refl,
  map_option, arith,
}
use printsetu.Billing.Cycles.{BillingCycle, Plan, day_ms}
use printsetu.Billing.Invoices.{PaymentMethod, InvoiceStatus, InvoiceKind, Invoice, is_unpaid_of}
use printsetu.Billing.Accounts.{Agrees}
use printsetu.Subscriptions.Store.{
  SubscriptionStatus, BillingChannel, Subscription, UpgradeTiming, DowngradeTiming, BillingSettings,
  Store, SubscriptionError, find_subscription,
}
use printsetu.Subscriptions.Gateways.{Gateways}
use printsetu.Subscriptions.Automation.{process, run_all}
use printsetu.Subscriptions.Rows.{Nobody, Rows}
use printsetu.Subscriptions.Outcomes.{Outcome}
use printsetu.Subscriptions.Lifecycle.{run_all-Outcome}
use printsetu.Subscriptions.Overridden.{run_all-IsSame}
use printsetu.Subscriptions.Grace.{run_all-grace}
use printsetu.Subscriptions.Suspension.{process-eventually}
use printsetu.Subscriptions.Manage.{CancelDto, with_cancellation, cancel, resume}
use printsetu.Subscriptions.Cancellation.{cancel_lem}
use printsetu.Subscriptions.PeriodEnd.{due, process-cancel}
use printsetu.Subscriptions.Dates.{Dated, IsDated}
use printsetu.Subscriptions.Requests.{SubscriptionCall, TimedCall, after_calls, after_calls-IsDated}
use printsetu.Subscriptions.Ledgers.{HasAccounts}
use printsetu.Subscriptions.Ledgers.Calls.{after_calls-HasAccounts}
use printsetu.Subscriptions.Access.{World, usage, find_switch, assert_customer_can_order, describe}
use printsetu.Subscriptions.Orders.{IsServed, IsOpen, HasRoom, assert_customer_can_order_lem}

abbrev plan : Plan
plan = record {
  id = 7;
  daily_price = 2000;
  monthly_price = 49900;
  yearly_price = 499000;
  trial_days = 14;
  max_tokens_per_day = none;
  max_prints_per_month = some 500;
  max_printers = some 2;
  analytics_access = true;
  is_active = true;
}

abbrev settings : BillingSettings
settings = record {
  grace_days = 5;
  suspend_after_past_due_days = 7;
  retry_attempts = 3;
  retry_interval_days = 1;
  renewal_reminder_days = 3;
  default_channels = BillingChannel.in_app ∷ BillingChannel.email ∷ [];
  upgrade_timing = UpgradeTiming.immediate_prorated;
  downgrade_timing = DowngradeTiming.end_of_cycle;
}

-- A shop whose payment is pending until the fifth day.
abbrev pending_row : Subscription
pending_row = record {
  shop_id = 5;
  plan_id = 7;
  cycle = BillingCycle.monthly;
  status = SubscriptionStatus.payment_pending;
  start_date = 0;
  current_period_start = 0;
  current_period_end = 0;
  trial_ends_at = none;
  grace_ends_at = some (5 * day_ms);
  past_due_since = none;
  auto_renew = true;
  gateway = 0;
  cancel_at_period_end = false;
  cancelled_at = none;
  cancel_reason = none;
  pending_plan_id = none;
  pending_cycle = none;
  automation_paused = false;
  paused_until = none;
  notification_channels = none;
  reminders_sent = [];
}

-- A shop that an administrator has suspended without an end.
abbrev held_row : Subscription
held_row = record pending_row {
  shop_id = 6;
  status = SubscriptionStatus.suspended;
  automation_paused = true;
}

abbrev store : Store
store = record {
  shops =
      record { id = 5; email = []; mobile = [] } ∷ record { id = 6; email = []; mobile = [] } ∷ [];
  plans = plan ∷ [];
  subscriptions = pending_row ∷ held_row ∷ [];
  ledger = record { invoices = []; refunds = [] };
  next_invoice = 1;
  settings = settings;
  events = [];
  audit = [];
  notices = [];
  running = false;
}

-- No gateway is connected.
abbrev manual : Gateways
manual g = none

-- An administrator has suspended the second shop.
run_all-IsSame_example : find_subscription 6 (run_all manual (6 * day_ms) store).1 ≡ some held_row
run_all-IsSame_example =
    run_all-IsSame manual (6 * day_ms) store 6 held_row (refl, (refl, tt)) refl refl refl

run_all-Outcome_example :
    (s' : Subscription) × (find_subscription 5 (run_all manual (6 * day_ms) store).1 ≡ some s')
    × Outcome settings (6 * day_ms) pending_row s'
run_all-Outcome_example =
    run_all-Outcome manual (6 * day_ms) store 5 pending_row (refl, (refl, tt)) refl

-- On the fourth day the grace period goes on.
run_all-grace_example :
    (describe
      (4 * day_ms)
      (find_subscription 5 (run_all manual (4 * day_ms) store).1)).accepts_orders
    ≡ true
run_all-grace_example =
    run_all-grace manual (4 * day_ms) (4 * day_ms) store 5 pending_row (refl, (refl, tt)) refl refl
      refl

-- Checked on the sixth day and on the thirteenth.
process-eventually_example :
    map_option
      (λ (r : Subscription). r.status)
      (find_subscription 5
        (process manual settings
          (13 * day_ms)
          5
          (process manual settings (6 * day_ms) 5 store).1).1)
    ≡ some SubscriptionStatus.suspended
process-eventually_example =
    process-eventually manual settings 5 (6 * day_ms) (13 * day_ms) store pending_row refl refl refl
      refl refl (omega arith) (omega arith)

store-IsDated : Rows Nobody IsDated store
unfolding Dated
store-IsDated = ((refl, (refl, tt)), (refl, (tt, tt)), λ k none. cc)

-- A payment without an invoice, a check, and the end of the suspension.
abbrev calls : List TimedCall
calls =
    record {
      now = 0;
      shop = 5;
      actor = 1;
      call =
          SubscriptionCall.pays
            (record { invoice_id = none; method = PaymentMethod.cash; reference = none });
    }
    ∷ record { now = 8 * day_ms; shop = 0; actor = 0; call = SubscriptionCall.checks }
    ∷ record { now = 9 * day_ms; shop = 6; actor = 1; call = SubscriptionCall.reactivates none }
    ∷ []

after_calls-IsDated_example : Rows Nobody IsDated (after_calls manual calls store)
after_calls-IsDated_example = after_calls-IsDated manual calls store store-IsDated

abbrev at_once : CancelDto
at_once = record { at_period_end = false; reason = [] }

-- The fifth shop owes its first month.
abbrev bill : Invoice
bill = record {
  id = 1;
  shop_id = 5;
  plan_id = 7;
  cycle = BillingCycle.monthly;
  kind = InvoiceKind.initial;
  period_start = 0;
  period_end = 31 * day_ms;
  amount = 49900;
  due_date = 0;
  status = InvoiceStatus.unpaid;
  paid_at = none;
  payment_method = none;
  payment_reference = none;
  attempt_count = 0;
  last_failure = none;
  next_retry_at = none;
  refunded_amount = 0;
}

abbrev billed : Store
billed = record store { ledger = record { invoices = bill ∷ []; refunds = [] }; next_invoice = 2 }

billed-HasAccounts : HasAccounts billed
unfolding Agrees
billed-HasAccounts = record {
  unique = (refl, tt);
  counted = λ k i h. ground arith;
  agrees = λ k i h. ground arith;
  unclaimed = λ k h. refl;
}

-- The bill is paid, a part of it is given back, the period ends without a gateway, and the shop is cancelled,
-- which leaves the second bill void.
abbrev paid_calls : List TimedCall
paid_calls =
    record {
      now = day_ms;
      shop = 5;
      actor = 1;
      call =
          SubscriptionCall.pays
            (record { invoice_id = some 1; method = PaymentMethod.cash; reference = none });
    }
    ∷ record { now = 2 * day_ms; shop = 5; actor = 1; call = SubscriptionCall.refunds 1 400 [] }
    ∷ record { now = 32 * day_ms; shop = 0; actor = 0; call = SubscriptionCall.checks }
    ∷ record { now = 33 * day_ms; shop = 5; actor = 1; call = SubscriptionCall.cancels at_once }
    ∷ []

after_calls-HasAccounts_example : HasAccounts (after_calls manual paid_calls billed)
after_calls-HasAccounts_example =
    after_calls-HasAccounts manual paid_calls billed billed-HasAccounts

-- The first shop, open by its switch, without orders or a time zone that matters.
abbrev world : World
world = record {
  store = store;
  print = record {
    jobs = [];
    items = [];
    events = [];
    documents = [];
    quotes = [];
    settings = [];
    printers = [];
    notifications = [];
    pricing = [];
    tiers = [];
    dispatch_queue = [];
    pushed = [];
    audit = [];
    next_token = 1;
  };
  switches =
      record {
        shop_id = 5;
        settings = record {
          accepting_orders = true;
          auto_schedule = false;
          schedule_override = none;
          schedule_override_until = none;
        };
        opening_hours = none;
      }
      ∷ [];
  clock = record { now = day_ms; start_of_today = day_ms; start_of_month = 0 };
  zone = record { day = λ t. 0; minutes = λ t. 0; at = λ t i m. t };
}

assert_customer_can_order_lem_example : (assert_customer_can_order world 5 ≡ ok tt) ↔ (
    IsServed (find_subscription 5 store)
    × IsOpen world (find_switch 5 world)
    × HasRoom (usage world.clock 5 world.print) (some plan))
assert_customer_can_order_lem_example = assert_customer_can_order_lem world 5

cancel_lem_example :
    ((cancel 3 5 at_once 1 store).0 ≡ ok (with_cancellation 3 [] pending_row))
    × (find_many (is_unpaid_of 5) (cancel 3 5 at_once 1 store).1.ledger.invoices ≡ [])
    × ((describe 4 (find_subscription 5 (cancel 3 5 at_once 1 store).1)).accepts_orders ≡ false)
    × ((cancel 4 5 at_once 2 (cancel 3 5 at_once 1 store).1).0
        ≡ err SubscriptionError.already_cancelled)
    × ((resume 5 2 (cancel 3 5 at_once 1 store).1).0 ≡ err SubscriptionError.not_scheduled_to_end)
cancel_lem_example = cancel_lem 3 5 at_once 1 store pending_row 4 at_once 2 refl refl refl

-- The fifth shop has paid until the thirtieth day.
abbrev paid_row : Subscription
paid_row = record pending_row {
  status = SubscriptionStatus.active;
  current_period_end = 30 * day_ms;
  grace_ends_at = none;
}

abbrev paid_store : Store
paid_store = record store { subscriptions = paid_row ∷ held_row ∷ [] }

process-cancel_example :
    let after =
      (process manual settings (30 * day_ms) 5 (cancel day_ms 5 (due []) 1 paid_store).1).1 in
    (map_option (λ r. r.status) (find_subscription 5 after) ≡ some SubscriptionStatus.cancelled)
    × (after.ledger ≡ paid_store.ledger)
process-cancel_example =
    process-cancel manual settings day_ms (30 * day_ms) 5 1 [] paid_store paid_row refl refl
      (inr (refl, (leb_iff _ _).0 refl))
