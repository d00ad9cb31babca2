-- ===== src/Subscriptions/Pay.antt =====
-- printsetu-backend/src/subscriptions/subscriptions.service.ts: payments and refunds that an
-- administrator records.
use printsetu.Base.{
  ℕ, Bool, true, false, not, ◌&&◌, ◌||◌, Option, none, some, leb, pure, gets, or_throw, when,
  transaction, if◌then◌else◌, ◌>>=◌, ◌>>◌,
}
use printsetu.Print.Types.{Text}
use printsetu.Billing.Cycles.{add_cycle}
use printsetu.Billing.Invoices.{
  InvoiceKind, Invoice, PaymentMethod, Payment, find_or_throw, oldest_unpaid, mark_paid, refund,
}
use printsetu.Subscriptions.Store.{
  SubscriptionStatus, Subscription, EventType, BillingEvent, SubscriptionError, Method, update,
  on_ledger,
}
use printsetu.Subscriptions.Records.{notify, record_event, load, clear_renewal_reminders}
use printsetu.Subscriptions.Statuses.{
  is_expired, is_cancelled, is_suspended, is_payment_pending, is_past_due, is_held,
}

-- `MarkPaidDto`
pub record MarkPaidDto : Type 0 where
  pub invoice_id : Option ℕ
  pub method : PaymentMethod
  pub reference : Option Text

-- The invoice that is asked for, or the oldest unpaid one.
unfoldable pub invoice_to_pay : ℕ → Option ℕ → Method Invoice
invoice_to_pay shop none = do
  found ← gets (λ db. oldest_unpaid shop db.ledger)
  or_throw found SubscriptionError.no_unpaid_invoice
invoice_to_pay shop (some k) = on_ledger (find_or_throw k (some shop))

abbrev is_upgrade_kind : InvoiceKind → Bool
is_upgrade_kind InvoiceKind.upgrade = true
is_upgrade_kind _ = false

abbrev pub with_paid_period : ℕ → Invoice → Subscription → Subscription
with_paid_period now paid s = record s {
  current_period_start = if leb paid.period_end now then now else paid.period_start;
  current_period_end =
      if leb paid.period_end now then add_cycle now paid.cycle else paid.period_end;
}

abbrev pub with_paid_term : ℕ → Invoice → Subscription → Subscription → Subscription
with_paid_term now paid sub s = record (with_paid_period now paid s) {
  trial_ends_at = none;
  grace_ends_at = none;
  past_due_since = none;
  status = if is_held sub then s.status else SubscriptionStatus.active;
  reminders_sent = clear_renewal_reminders sub;
}

abbrev payment_now : ℕ → MarkPaidDto → Payment
payment_now now dto = record { method = dto.method; reference = dto.reference; at = some now }

-- Whether the payment starts the next term.
abbrev starts_term : Invoice → Subscription → Bool
starts_term paid sub = not (is_upgrade_kind paid.kind) && not (is_cancelled sub.status)

-- Returns whether an administrator's suspension stands.
unfoldable pub settle : ℕ → ℕ → ℕ → MarkPaidDto → Subscription → ℕ → Method Bool
settle now shop k dto sub actor = do
  paid ← on_ledger (mark_paid now k (payment_now now dto))
  when (starts_term paid sub) (update shop (with_paid_term now paid sub))
  record_event shop (some actor) EventType.marked_paid
  pure (starts_term paid sub && is_held sub)

abbrev was_restricted : SubscriptionStatus → Bool
was_restricted s = is_past_due s || is_suspended s || is_expired s || is_payment_pending s

-- `markPaid`
unfoldable pub mark_paid_by_admin : ℕ → ℕ → MarkPaidDto → ℕ → Method (Subscription × Bool)
mark_paid_by_admin now shop dto actor = do
  sub ← load shop
  invoice ← invoice_to_pay shop dto.invoice_id
  held ← transaction (settle now shop invoice.id dto sub actor)
  notify shop
      (if was_restricted sub.status && not held
        then BillingEvent.reactivated
        else BillingEvent.paid)
      sub.notification_channels
  after ← load shop
  pure (after, held)

-- `refund`
unfoldable pub refund_by_admin : ℕ → ℕ → ℕ → Text → ℕ → Method (Unit {0})
refund_by_admin shop k value reason actor = do
  _ ← on_ledger (find_or_throw k (some shop))
  on_ledger (refund k value reason)
  record_event shop (some actor) EventType.refunded
