-- ===== src/Subscriptions/Checks.antt =====
-- What the periodic check keeps of each row: it is enough that each of its writes keeps it.
mod Terms
mod Steps
pub mod All
use printsetu.Base.{
  ℕ, Bool, true, false, not, Option, none, some, List, leb, ◌≡◌, refl, sym, ◌⊎◌, inl, inr,
  Option-cases, All-find_first, by, pure, catch, ◌>>=◌,
}
use mathlib.Core.Path.{subst}
use printsetu.Base.Effects.Keeps.{Keeps, Keeps-bind, Keeps-gets, keeps_rules}
use printsetu.Base.Effects.Gives.{
  Gives, Gives-imp, Gives-pure, Gives-branch, Gives-after, Keeps-given, Keeps-when-if,
  Keeps-branch-if,
}
use printsetu.Billing.Cycles.{add_days}
use printsetu.Billing.Invoices.{Invoice}
use printsetu.Subscriptions.Store.{
  ReminderKey, Subscription, BillingSettings, BillingEvent, Store, shop_key, find_subscription,
  update,
}
use printsetu.Subscriptions.Statuses.{is_trial, is_active, is_payment_pending, is_past_due}
use printsetu.Subscriptions.Records.{load}
use printsetu.Subscriptions.Overrides.{without_override}
use printsetu.Subscriptions.Reminders.{
  with_sent, send_reminder, remind, renewal_reminder, trial_end, trial_reminder, grace_reminder,
  final_warning,
}
use printsetu.Subscriptions.Gateways.{ChargeResult, PaymentGateway, Gateways, note_failure}
use printsetu.Subscriptions.Renewal.{
  Renewal, cancelled_at_end, expired_row, with_term, with_paid_renewal, with_grace_period,
  cancel_at_end, expire, renew_free, renew_charged, renew_unpaid, after_charge, renew_priced,
  renew_term, renew, end_of_term,
}
use printsetu.Subscriptions.Collection.{
  with_recovery, recover, fail_retry, retry_invoice, retry_with, retry_payment, fail_invoices,
  overdue, to_past_due, suspended_row, suspend, on_pending, grace_is_over, on_grace, suspend_at,
  on_past_due, collect,
}
use printsetu.Subscriptions.Automation.{
  on_trial, on_active, check, is_overridden, end_override, process_row, process, process_all,
  run_checks, run_all, set_running,
}
use printsetu.Subscriptions.Rows.{
  Rows, Rows-load, Rows-update, Rows-on_ledger, Rows-record_event, rows_rules,
}

-- The term is over.
abbrev pub IsEnded : ℕ → Subscription → Type 0
IsEnded now s =
    ((is_trial s.status ≡ true) × (leb (trial_end s) now ≡ true))
    ⊎ ((is_active s.status ≡ true) × (leb s.current_period_end now ≡ true))

-- It renews by itself.
abbrev pub IsToRenew : ℕ → Subscription → Type 0
IsToRenew now s = IsEnded now s × (s.auto_renew ≡ true)

-- No override is in force.
abbrev pub IsFree : ℕ → Subscription → Type 0
IsFree now s = (s.automation_paused ≡ false) ⊎ (is_overridden now s.paused_until ≡ false)

-- `f sub` keeps `P` of the rows of the shop of `sub`, where `C` holds of `sub`.
abbrev pub KeepsOwn :
    (ℕ → Type 0)
    → (Subscription → Type 0)
    → (Subscription → Type 0)
    → (Subscription → Subscription → Subscription)
    → Type 0
KeepsOwn Free P C f =
    (sub row : Subscription)
    → Free sub.shop_id
    → P sub
    → C sub
    → row.shop_id ≡ sub.shop_id
    → P row
    → P (f sub row)

-- The writes of the check at `now`, for the shops that it may write to.
pub record IsKept (settings : BillingSettings) (now : ℕ) (Free : ℕ → Type 0)
    (P : Subscription → Type 0) : Type 0 where
  pub free : (sub : Subscription) → P sub → IsFree now sub → Free sub.shop_id
  pub releases : KeepsOwn Free P (λ _. Unit {0}) (λ _. without_override)
  pub cancels :
      KeepsOwn Free P
        (λ s. IsEnded now s × (s.cancel_at_period_end ≡ true))
        (λ _. cancelled_at_end now)
  pub expires : KeepsOwn Free P (λ s. IsEnded now s × (s.auto_renew ≡ false)) (λ _. expired_row)
  pub renews : (r : Renewal) → KeepsOwn Free P (IsToRenew now) (λ _. with_term r)
  pub pays : (r : Renewal) → KeepsOwn Free P (IsToRenew now) (λ _. with_paid_renewal r)
  pub waits :
      (r : Renewal)
      → KeepsOwn Free P
          (IsToRenew now)
          (λ _. with_grace_period r (add_days now settings.grace_days))
  pub recovers :
      (i : Invoice)
      → KeepsOwn Free P (λ s. is_payment_pending s.status ≡ true) (λ _. with_recovery now i)
  pub lapses :
      KeepsOwn Free P
        (λ s. (is_payment_pending s.status ≡ true) × (grace_is_over now s.grace_ends_at ≡ true))
        (λ _. overdue now)
  pub suspends :
      KeepsOwn Free P
        (λ s. (is_past_due s.status ≡ true) × (leb (suspend_at settings now s) now ≡ true))
        (λ _. suspended_row)
  pub reminds : (key : ReminderKey) → KeepsOwn Free P (λ _. Unit {0}) (λ sub. with_sent sub key)

-- What is known of a row that the check goes on with.
abbrev pub IsOwn : (ℕ → Type 0) → (Subscription → Type 0) → Subscription → Type 0
IsOwn Free P sub = P sub × Free sub.shop_id
