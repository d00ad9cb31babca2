-- ===== src/Subscriptions/Checks/Steps.antt =====
-- The collection of payments keeps what its writes keep.
use printsetu.Base.{ℕ, true, Option, none, some, leb, ◌≡◌, refl, sym}
use mathlib.Core.Path.{subst}
use printsetu.Base.Effects.Keeps.{Keeps, Keeps-bind}
use printsetu.Base.Effects.Gives.{
  Gives, Gives-imp, Gives-pure, Gives-branch, Gives-after, Keeps-given, Keeps-when-if,
  Keeps-branch-if,
}
use printsetu.Billing.Invoices.{Invoice}
use printsetu.Subscriptions.Store.{ReminderKey, Subscription, BillingSettings, BillingEvent}
use printsetu.Subscriptions.Statuses.{is_payment_pending, is_past_due}
use printsetu.Subscriptions.Records.{load}
use printsetu.Subscriptions.Reminders.{grace_reminder, final_warning}
use printsetu.Subscriptions.Gateways.{ChargeResult, PaymentGateway, Gateways, note_failure}
use printsetu.Subscriptions.Collection.{
  with_recovery, recover, fail_retry, retry_invoice, retry_with, retry_payment, fail_invoices,
  overdue, to_past_due, suspended_row, suspend, on_pending, grace_is_over, on_grace, suspend_at,
  on_past_due, collect,
}
use printsetu.Subscriptions.Rows.{Rows, Rows-load, Rows-on_ledger, rows_rules}
use printsetu.Subscriptions.Checks.{IsKept, IsOwn}
use printsetu.Subscriptions.Checks.Terms.{own-Rows, remind-Rows}

module _ {settings : BillingSettings} {now : ℕ} {Free : ℕ → Type 0} {K : ℕ → Type 0}
    {P : Subscription → Type 0} (kept : IsKept settings now Free P) (gateways : Gateways) where
  module _ (sub : Subscription) (free : Free sub.shop_id) (p : P sub) where
    module _ (pending : is_payment_pending sub.status ≡ true) where
      recover-Rows : (i : Invoice) (c : ChargeResult) → Keeps (Rows K P) (recover now sub i c)
      unfolding recover
      recover-Rows i c = Keeps-bind _ _ (Rows-on_ledger _) (λ paid.
          let writes =
            own-Rows {K = K} kept gateways sub free p (λ _. with_recovery now paid) (λ _. refl)
              (kept.recovers paid) pending in
          search rows_rules depth 16)

      retry_invoice-Rows :
          (g : PaymentGateway) (o : Option Invoice)
          → Keeps (Rows K P) (retry_invoice settings now sub g o)
      unfolding retry_invoice fail_retry note_failure
      retry_invoice-Rows g none = search rows_rules
      retry_invoice-Rows g (some i) = search (rows_rules, recover-Rows) depth 20

      retry_with-Rows :
          (o : Option PaymentGateway) → Keeps (Rows K P) (retry_with settings now sub o)
      unfolding retry_with
      retry_with-Rows none = search rows_rules
      retry_with-Rows (some g) = search (rows_rules, retry_invoice-Rows) depth 16

      retry_payment-Rows : Keeps (Rows K P) (retry_payment gateways settings now sub)
      unfolding retry_payment
      retry_payment-Rows = retry_with-Rows (gateways sub.gateway)

      to_past_due-Rows :
          grace_is_over now sub.grace_ends_at ≡ true → Keeps (Rows K P) (to_past_due now sub)
      unfolding to_past_due fail_invoices
      to_past_due-Rows over =
          let writes =
            own-Rows {K = K} kept gateways sub free p (λ _. overdue now) (λ _. refl) kept.lapses
              (pending, over) in
          search rows_rules depth 20

    suspend-Rows :
        is_past_due sub.status ≡ true
        → leb (suspend_at settings now sub) now ≡ true
        → Keeps (Rows K P) (suspend sub)
    unfolding suspend
    suspend-Rows late over =
        let writes =
          own-Rows {K = K} kept gateways sub free p (λ _. suspended_row) (λ _. refl) kept.suspends
            (late, over) in
        search rows_rules depth 16

  pub load-Rows : (shop : ℕ) → Free shop → Gives (Rows K P) (IsOwn Free P) (load shop)
  load-Rows shop free =
      Gives-imp (load shop) (λ sub (p, own). (p, subst Free (sym own) free)) (Rows-load shop)

  module _ (sub : Subscription) (own : IsOwn Free P sub) where
    on_pending-Rows : Gives (Rows K P) (IsOwn Free P) (on_pending gateways settings now sub)
    unfolding on_pending
    on_pending-Rows =
        Gives-branch _ _ _
          (λ pending.
            Gives-after _ _ (retry_payment-Rows sub own.1 own.0 pending)
              (λ _. load-Rows sub.shop_id own.1))
          (λ _. Gives-pure sub own)

    grace_reminder-Rows : (o : Option ℕ) → Keeps (Rows K P) (grace_reminder settings now sub o)
    unfolding grace_reminder
    grace_reminder-Rows none = search rows_rules
    grace_reminder-Rows (some t) =
        let sends =
          remind-Rows {K = K} kept gateways sub own.1 own.0 (ReminderKey.grace_key t)
            BillingEvent.grace_reminder in
        search rows_rules depth 8

    on_grace-Rows : Gives (Rows K P) (IsOwn Free P) (on_grace settings now sub)
    unfolding on_grace
    on_grace-Rows =
        Gives-branch _ _ _
          (λ pending.
            Gives-branch _ _ _
              (λ over.
                Gives-after _ _ (to_past_due-Rows sub own.1 own.0 pending over)
                  (λ _. load-Rows sub.shop_id own.1))
              (λ _.
                Gives-after _ _ (grace_reminder-Rows sub.grace_ends_at) (λ _. Gives-pure sub own)))
          (λ _. Gives-pure sub own)

    on_past_due-Rows : Keeps (Rows K P) (on_past_due settings now sub)
    unfolding on_past_due final_warning
    on_past_due-Rows = Keeps-when-if _ _ (λ late.
        Keeps-branch-if _ _ _ (suspend-Rows sub own.1 own.0 late) (λ _.
          Keeps-when-if _ _
            (λ _. remind-Rows {K = K} kept gateways sub own.1 own.0 _ BillingEvent.final_warning)))

  pub collect-Rows :
      (sub : Subscription) → IsOwn Free P sub → Keeps (Rows K P) (collect gateways settings now sub)
  unfolding collect
  collect-Rows sub own = Keeps-given _ _ (on_pending-Rows sub own) (λ waiting known.
      Keeps-given _ _ (on_grace-Rows waiting known)
        (λ overdue' known'. on_past_due-Rows overdue' known'))
