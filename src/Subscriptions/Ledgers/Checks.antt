-- ===== src/Subscriptions/Ledgers/Checks.antt =====
-- The periodic check keeps the accounts of the invoices.
use printsetu.Base.{ℕ, Bool, Option, none, some}
use printsetu.Base.Effects.Keeps.{Keeps}
use printsetu.Billing.Invoices.{Invoice}
use printsetu.Subscriptions.Store.{ReminderKey, Subscription, BillingSettings, BillingEvent}
use printsetu.Subscriptions.Reminders.{
  send_reminder, remind, renewal_reminder, trial_reminder, grace_reminder, final_warning,
}
use printsetu.Subscriptions.Gateways.{ChargeResult, PaymentGateway, Gateways}
use printsetu.Subscriptions.Renewal.{
  Renewal, cancel_at_end, expire, renew_free, renew_charged, renew_unpaid, after_charge,
  renew_priced, renew_term, renew, end_of_term,
}
use printsetu.Subscriptions.Collection.{
  recover, fail_retry, retry_invoice, retry_with, retry_payment, to_past_due, suspend, on_pending,
  on_grace, on_past_due, collect,
}
use printsetu.Subscriptions.Automation.{
  on_trial, on_active, check, end_override, process_row, process, process_all, run_checks, run_all,
}
use printsetu.Subscriptions.Ledgers.{HasAccounts, ledger_rules}

module _ (settings : BillingSettings) (now : ℕ) (sub : Subscription) where
  remind-HasAccounts :
      (key : ReminderKey) (event : BillingEvent) → Keeps HasAccounts (remind sub key event)
  unfolding remind send_reminder
  remind-HasAccounts key event = search ledger_rules depth 16

  after_charge-HasAccounts :
      (r : Renewal) (i : Invoice) (o : Option ChargeResult)
      → Keeps HasAccounts (after_charge settings now r sub i o)
  unfolding after_charge renew_unpaid renew_charged
  after_charge-HasAccounts r i none = search ledger_rules depth 20
  after_charge-HasAccounts r i (some c) = search ledger_rules depth 24

  end_of_term-HasAccounts :
      (gateways : Gateways) (from_trial : Bool)
      → Keeps HasAccounts (end_of_term gateways settings now from_trial sub)
  unfolding end_of_term cancel_at_end expire renew renew_term renew_free renew_priced
  end_of_term-HasAccounts gateways from_trial =
      search (ledger_rules, after_charge-HasAccounts) depth 30

  retry_invoice-HasAccounts :
      (g : PaymentGateway) (o : Option Invoice)
      → Keeps HasAccounts (retry_invoice settings now sub g o)
  unfolding retry_invoice recover fail_retry
  retry_invoice-HasAccounts g none = search ledger_rules
  retry_invoice-HasAccounts g (some i) = search ledger_rules depth 26

  retry_with-HasAccounts :
      (o : Option PaymentGateway) → Keeps HasAccounts (retry_with settings now sub o)
  unfolding retry_with
  retry_with-HasAccounts none = search ledger_rules
  retry_with-HasAccounts (some g) = search (ledger_rules, retry_invoice-HasAccounts) depth 12

  grace_reminder-HasAccounts :
      (o : Option ℕ) → Keeps HasAccounts (grace_reminder settings now sub o)
  unfolding grace_reminder
  grace_reminder-HasAccounts none = search ledger_rules
  grace_reminder-HasAccounts (some t) = search (ledger_rules, remind-HasAccounts) depth 8

  on_pending-HasAccounts :
      (gateways : Gateways) → Keeps HasAccounts (on_pending gateways settings now sub)
  unfolding on_pending retry_payment
  on_pending-HasAccounts gateways = search (ledger_rules, retry_with-HasAccounts) depth 16

  on_grace-HasAccounts : Keeps HasAccounts (on_grace settings now sub)
  unfolding on_grace to_past_due
  on_grace-HasAccounts = search (ledger_rules, grace_reminder-HasAccounts) depth 28

  on_past_due-HasAccounts : Keeps HasAccounts (on_past_due settings now sub)
  unfolding on_past_due suspend final_warning
  on_past_due-HasAccounts = search (ledger_rules, remind-HasAccounts) depth 24

module _ (gateways : Gateways) (settings : BillingSettings) (now : ℕ) where
  collect-HasAccounts : (sub : Subscription) → Keeps HasAccounts (collect gateways settings now sub)
  unfolding collect
  collect-HasAccounts sub =
      search (ledger_rules, on_pending-HasAccounts, on_grace-HasAccounts, on_past_due-HasAccounts)
        depth 16

  check-HasAccounts : (sub : Subscription) → Keeps HasAccounts (check gateways settings now sub)
  unfolding check on_trial on_active trial_reminder renewal_reminder
  check-HasAccounts sub =
      search (ledger_rules, end_of_term-HasAccounts, remind-HasAccounts, collect-HasAccounts) depth
        28

  process_row-HasAccounts :
      (o : Option Subscription) → Keeps HasAccounts (process_row gateways settings now o)
  unfolding process_row end_override
  process_row-HasAccounts none = search ledger_rules
  process_row-HasAccounts (some sub) = search (ledger_rules, check-HasAccounts) depth 24

  process-HasAccounts : (shop : ℕ) → Keeps HasAccounts (process gateways settings now shop)
  unfolding process
  process-HasAccounts shop = search (ledger_rules, process_row-HasAccounts) depth 12

pub run_all-HasAccounts : (gateways : Gateways) (now : ℕ) → Keeps HasAccounts (run_all gateways now)
unfolding run_all run_checks process_all
run_all-HasAccounts gateways now = search (ledger_rules, process-HasAccounts) depth 28
