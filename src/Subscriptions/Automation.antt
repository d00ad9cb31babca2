-- ===== src/Subscriptions/Automation.antt =====
-- printsetu-backend/src/subscriptions/billing-automation.service.ts: the periodic check of every shop.
-- The lines that it writes to the log are left out.
use printsetu.Base.{
  ℕ, Bool, true, false, not, ◌||◌, Option, none, some, List, find_many, length, ltb, leb, pure,
  gets, modify, when, branch, catch, for_each, ◌>>=◌, ◌>>◌,
}
use printsetu.Subscriptions.Store.{
  Subscription, BillingSettings, EventType, Method, find_subscription, update,
}
use printsetu.Subscriptions.Statuses.{is_trial, is_active, is_payment_pending, is_past_due}
use printsetu.Subscriptions.Records.{record_event, load}
use printsetu.Subscriptions.Overrides.{without_override}
use printsetu.Subscriptions.Reminders.{renewal_reminder, trial_end, trial_reminder}
use printsetu.Subscriptions.Gateways.{Gateways}
use printsetu.Subscriptions.Renewal.{end_of_term}
use printsetu.Subscriptions.Collection.{collect}

unfoldable pub on_trial : Gateways → BillingSettings → ℕ → Subscription → Method (Unit {0})
on_trial gateways settings now sub =
    branch (leb (trial_end sub) now) (end_of_term gateways settings now true sub)
      (trial_reminder now sub)

unfoldable pub on_active : Gateways → BillingSettings → ℕ → Subscription → Method (Unit {0})
on_active gateways settings now sub =
    branch (leb sub.current_period_end now)
      (end_of_term gateways settings now false sub
        >> (load sub.shop_id >>= collect gateways settings now))
      (renewal_reminder settings now sub)

unfoldable pub check : Gateways → BillingSettings → ℕ → Subscription → Method (Unit {0})
check gateways settings now sub =
    branch (is_trial sub.status) (on_trial gateways settings now sub) (
      branch (is_active sub.status) (on_active gateways settings now sub)
        (collect gateways settings now sub))

-- An override without an end, or with one ahead.
abbrev pub is_overridden : ℕ → Option ℕ → Bool
is_overridden now none = true
is_overridden now (some t) = ltb now t

unfoldable pub end_override : Subscription → Method Subscription
end_override sub = do
  update sub.shop_id without_override
  record_event sub.shop_id none EventType.override_expired
  load sub.shop_id

unfoldable pub process_row :
    Gateways → BillingSettings → ℕ → Option Subscription → Method (Unit {0})
process_row gateways settings now none = pure tt
process_row gateways settings now (some sub) =
    branch sub.automation_paused
      (when (not (is_overridden now sub.paused_until))
        (end_override sub >>= check gateways settings now))
      (check gateways settings now sub)

-- `process`
unfoldable pub process : Gateways → BillingSettings → ℕ → ℕ → Method (Unit {0})
process gateways settings now shop =
    gets (find_subscription shop) >>= process_row gateways settings now

unfoldable pub is_checked : Subscription → Bool
is_checked s =
    is_trial s.status || is_active s.status || is_payment_pending s.status || is_past_due s.status

abbrev pub set_running : Bool → Method (Unit {0})
set_running b = modify (λ db. record db { running = b })

-- The shops one by one; what goes wrong for one does not stop the others.
unfoldable pub process_all : Gateways → BillingSettings → ℕ → List Subscription → Method (Unit {0})
process_all gateways settings now =
    for_each (λ s. catch (process gateways settings now s.shop_id) (λ _. pure tt))

unfoldable pub run_checks : Gateways → ℕ → Method ℕ
run_checks gateways now = do
  set_running true
  settings ← gets (λ db. db.settings)
  rows ← gets (λ db. find_many is_checked db.subscriptions)
  process_all gateways settings now rows
  set_running false
  pure (length rows)

-- `runAll`, as the number of shops that it checked
unfoldable pub run_all : Gateways → ℕ → Method ℕ
run_all gateways now = do
  busy ← gets (λ db. db.running)
  branch busy (pure 0) (run_checks gateways now)
