-- ===== src/Subscriptions/Collection.antt =====
-- printsetu-backend/src/subscriptions/billing-automation.service.ts: retries, and what follows an unpaid
-- renewal. The lines for the log are left out.
use printsetu.Base.{
  ℕ, ◌+◌, Bool, true, false, ◌&&◌, Option, none, some, [], ◌==◌, find_first, leb, get_or, pure,
  gets, modify, when, branch, transaction, if◌then◌else◌, ◌>>=◌, ◌>>◌,
}
use printsetu.Billing.Cycles.{add_days, add_cycle}
use printsetu.Billing.Invoices.{InvoiceStatus, Invoice, update_invoices, mark_paid}
use printsetu.Subscriptions.Store.{
  SubscriptionStatus, Subscription, BillingSettings, EventType, BillingEvent, Store, Method, update,
  on_ledger,
}
use printsetu.Subscriptions.Statuses.{is_payment_pending, is_past_due}
use printsetu.Subscriptions.Records.{notify, record_event, load}
use printsetu.Subscriptions.Reminders.{grace_reminder, final_warning}
use printsetu.Subscriptions.Gateways.{
  ChargeResult, PaymentGateway, Gateways, safe_charge, note_failure, gateway_payment,
}

abbrev pub is_unpaid : InvoiceStatus → Bool
is_unpaid InvoiceStatus.unpaid = true
is_unpaid _ = false

abbrev pub is_due : ℕ → Option ℕ → Bool
is_due now none = false
is_due now (some t) = leb t now

abbrev pub is_open_of : ℕ → Invoice → Bool
is_open_of shop i = (i.shop_id == shop) && is_unpaid i.status

-- The oldest open invoice whose retry is due.
abbrev pub retryable : ℕ → ℕ → Store → Option Invoice
retryable shop now db =
    find_first (λ i. is_open_of shop i && is_due now i.next_retry_at) db.ledger.invoices

abbrev pub with_recovery : ℕ → Invoice → Subscription → Subscription
with_recovery now paid s = record s {
  status = SubscriptionStatus.active;
  grace_ends_at = none;
  past_due_since = none;
  current_period_start = if leb paid.period_end now then now else paid.period_start;
  current_period_end =
      if leb paid.period_end now then add_cycle now paid.cycle else paid.period_end;
  reminders_sent = [];
}

unfoldable pub recover : ℕ → Subscription → Invoice → ChargeResult → Method (Unit {0})
recover now sub invoice c = do
  paid ← on_ledger (mark_paid now invoice.id (gateway_payment now c))
  update sub.shop_id (with_recovery now paid)
  record_event sub.shop_id none EventType.payment_received
  notify sub.shop_id BillingEvent.reactivated sub.notification_channels

abbrev next_retry : BillingSettings → ℕ → ℕ → Option ℕ
next_retry settings now attempts =
    if leb attempts settings.retry_attempts
    then some (add_days now settings.retry_interval_days)
    else none

unfoldable pub fail_retry :
    BillingSettings → ℕ → Subscription → Invoice → ChargeResult → Method (Unit {0})
fail_retry settings now sub invoice c = do
  note_failure invoice.id (invoice.attempt_count + 1) c
      (next_retry settings now (invoice.attempt_count + 1))
  record_event sub.shop_id none EventType.payment_retry_failed

unfoldable pub retry_invoice :
    BillingSettings → ℕ → Subscription → PaymentGateway → Option Invoice → Method (Unit {0})
retry_invoice settings now sub g none = pure tt
retry_invoice settings now sub g (some invoice) =
    when (leb invoice.attempt_count settings.retry_attempts) (
      branch (safe_charge g invoice).succeeded (recover now sub invoice (safe_charge g invoice))
        (fail_retry settings now sub invoice (safe_charge g invoice)))

unfoldable pub retry_with :
    BillingSettings → ℕ → Subscription → Option PaymentGateway → Method (Unit {0})
retry_with settings now sub none = pure tt
retry_with settings now sub (some g) =
    gets (retryable sub.shop_id now) >>= retry_invoice settings now sub g

-- `retryPayment`
unfoldable pub retry_payment : Gateways → BillingSettings → ℕ → Subscription → Method (Unit {0})
retry_payment gateways settings now sub = retry_with settings now sub (gateways sub.gateway)

abbrev pub failed : Invoice → Invoice
failed i = record i { status = InvoiceStatus.failed; next_retry_at = none }

unfoldable pub fail_invoices : ℕ → Method (Unit {0})
fail_invoices shop =
    modify (λ db. record db { ledger = update_invoices (is_open_of shop) failed db.ledger })

abbrev pub overdue : ℕ → Subscription → Subscription
overdue now s = record s { status = SubscriptionStatus.past_due; past_due_since = some now }

-- `toPastDue`
unfoldable pub to_past_due : ℕ → Subscription → Method (Unit {0})
to_past_due now sub = do
  transaction (fail_invoices sub.shop_id >> update sub.shop_id (overdue now))
  record_event sub.shop_id none EventType.past_due
  notify sub.shop_id BillingEvent.past_due sub.notification_channels

abbrev pub suspended_row : Subscription → Subscription
suspended_row s = record s { status = SubscriptionStatus.suspended }

unfoldable pub suspend : Subscription → Method (Unit {0})
suspend sub = do
  update sub.shop_id suspended_row
  record_event sub.shop_id none EventType.suspended
  notify sub.shop_id BillingEvent.suspended sub.notification_channels

unfoldable pub on_pending : Gateways → BillingSettings → ℕ → Subscription → Method Subscription
on_pending gateways settings now sub =
    branch (is_payment_pending sub.status)
      (retry_payment gateways settings now sub >> load sub.shop_id) (pure sub)

abbrev pub grace_is_over : ℕ → Option ℕ → Bool
grace_is_over now none = true
grace_is_over now (some t) = leb t now

unfoldable pub on_grace : BillingSettings → ℕ → Subscription → Method Subscription
on_grace settings now sub =
    branch (is_payment_pending sub.status)
      (branch (grace_is_over now sub.grace_ends_at) (to_past_due now sub >> load sub.shop_id)
        (grace_reminder settings now sub sub.grace_ends_at >> pure sub))
      (pure sub)

abbrev pub suspend_at : BillingSettings → ℕ → Subscription → ℕ
suspend_at settings now sub =
    add_days (get_or sub.past_due_since now) settings.suspend_after_past_due_days

unfoldable pub on_past_due : BillingSettings → ℕ → Subscription → Method (Unit {0})
on_past_due settings now sub = when (is_past_due sub.status) (
    branch (leb (suspend_at settings now sub) now) (suspend sub)
      (final_warning (suspend_at settings now sub) now sub))

-- What is due after the end of the term, one after the other.
unfoldable pub collect : Gateways → BillingSettings → ℕ → Subscription → Method (Unit {0})
collect gateways settings now sub = do
  waiting ← on_pending gateways settings now sub
  overdue' ← on_grace settings now waiting
  on_past_due settings now overdue'
