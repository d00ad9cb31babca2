-- ===== src/Subscriptions/Manage.antt =====
-- printsetu-backend/src/subscriptions/subscriptions.service.ts: extending a subscription or its grace
-- period, and cancelling it.
use printsetu.Base.{
  ℕ, Bool, true, false, not, ◌&&◌, ◌||◌, Option, none, some, ltb, modify, throw_if, branch,
  transaction, if◌then◌else◌, ◌>>=◌, ◌>>◌,
}
use printsetu.Print.Types.{Text}
use printsetu.Billing.Cycles.{add_days}
use printsetu.Billing.Invoices.{Ledger, is_unpaid_of, voided, update_invoices}
use printsetu.Subscriptions.Store.{
  SubscriptionStatus, Subscription, EventType, BillingEvent, SubscriptionError, Method, update,
}
use printsetu.Subscriptions.Records.{notify, record_event, load, clear_renewal_reminders}
use printsetu.Subscriptions.Statuses.{
  is_trial, is_active, is_expired, is_cancelled, is_payment_pending, is_past_due,
}

-- An expired period is extended from now.
abbrev extension_base : ℕ → Subscription → ℕ
extension_base now sub =
    if is_expired sub.status && ltb sub.current_period_end now then now else sub.current_period_end

abbrev pub with_extension : Subscription → ℕ → Subscription → Subscription
with_extension sub end s = record s {
  current_period_end = end;
  trial_ends_at = if is_trial sub.status then some end else s.trial_ends_at;
  status = if is_expired sub.status then SubscriptionStatus.active else s.status;
  reminders_sent = clear_renewal_reminders sub;
}

unfoldable pub extend_rows : ℕ → Subscription → ℕ → ℕ → Method (Unit {0})
extend_rows shop sub end actor = do
  update shop (with_extension sub end)
  record_event shop (some actor) EventType.extended

-- `extend`
unfoldable pub extend : ℕ → ℕ → ℕ → ℕ → Method Subscription
extend now shop days actor = do
  sub ← load shop
  throw_if (not (is_trial sub.status || is_active sub.status || is_expired sub.status))
      SubscriptionError.not_extendable
  transaction (extend_rows shop sub (add_days (extension_base now sub) days) actor)
  load shop

abbrev grace_base : ℕ → Option ℕ → ℕ
grace_base now none = now
grace_base now (some t) = if ltb now t then t else now

abbrev pub with_grace : ℕ → Subscription → Subscription
with_grace end s = record s {
  status = SubscriptionStatus.payment_pending;
  grace_ends_at = some end;
  past_due_since = none;
}

unfoldable pub grace_rows : ℕ → ℕ → ℕ → Method (Unit {0})
grace_rows shop end actor = do
  update shop (with_grace end)
  record_event shop (some actor) EventType.grace_extended

-- `extendGrace`
unfoldable pub extend_grace : ℕ → ℕ → ℕ → ℕ → Method Subscription
extend_grace now shop days actor = do
  sub ← load shop
  throw_if (not (is_payment_pending sub.status || is_past_due sub.status))
      SubscriptionError.not_in_grace
  transaction (grace_rows shop (add_days (grace_base now sub.grace_ends_at) days) actor)
  load shop

-- `CancelDto`
pub record CancelDto : Type 0 where
  pub at_period_end : Bool
  pub reason : Text

abbrev pub with_cancellation_due : Text → Subscription → Subscription
with_cancellation_due reason s = record s {
  cancel_at_period_end = true;
  cancel_reason = some reason;
  pending_plan_id = none;
  pending_cycle = none;
}

abbrev pub with_cancellation : ℕ → Text → Subscription → Subscription
with_cancellation now reason s = record s {
  status = SubscriptionStatus.cancelled;
  cancelled_at = some now;
  cancel_reason = some reason;
  cancel_at_period_end = false;
  grace_ends_at = none;
  past_due_since = none;
  pending_plan_id = none;
  pending_cycle = none;
}

abbrev pub void_unpaid : ℕ → Ledger → Ledger
void_unpaid shop l = update_invoices (is_unpaid_of shop) voided l

-- Whether the subscription runs on until the end of its period.
abbrev pub ends_later : CancelDto → Subscription → Bool
ends_later dto sub = dto.at_period_end && (is_active sub.status || is_trial sub.status)

unfoldable pub void_invoices : ℕ → Method (Unit {0})
void_invoices shop = modify (λ db. record db { ledger = void_unpaid shop db.ledger })

unfoldable pub cancel_rows : ℕ → ℕ → CancelDto → Subscription → ℕ → Method (Unit {0})
cancel_rows now shop dto sub actor = do
  branch (ends_later dto sub) (update shop (with_cancellation_due dto.reason))
      (void_invoices shop >> update shop (with_cancellation now dto.reason))
  record_event shop (some actor)
      (if ends_later dto sub then EventType.cancel_scheduled else EventType.cancelled)

-- `cancel`
unfoldable pub cancel : ℕ → ℕ → CancelDto → ℕ → Method Subscription
cancel now shop dto actor = do
  sub ← load shop
  throw_if (is_cancelled sub.status) SubscriptionError.already_cancelled
  transaction (cancel_rows now shop dto sub actor)
  notify shop BillingEvent.cancelled sub.notification_channels
  load shop

abbrev pub without_cancellation : Subscription → Subscription
without_cancellation s = record s { cancel_at_period_end = false; cancel_reason = none }

-- `resume`
unfoldable pub resume : ℕ → ℕ → Method Subscription
resume shop actor = do
  sub ← load shop
  throw_if (not sub.cancel_at_period_end) SubscriptionError.not_scheduled_to_end
  update shop without_cancellation
  record_event shop (some actor) EventType.cancel_undone
  load shop
