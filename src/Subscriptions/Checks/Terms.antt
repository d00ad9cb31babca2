-- ===== src/Subscriptions/Checks/Terms.antt =====
-- The end of a term keeps what its writes keep.
use printsetu.Base.{ℕ, Bool, true, false, not, Option, none, some, ◌≡◌, refl, sym}
use printsetu.Base.Effects.Keeps.{Keeps}
use printsetu.Base.Effects.Gives.{Keeps-branch-if}
use printsetu.Billing.Cycles.{add_days}
use printsetu.Billing.Invoices.{Invoice}
use printsetu.Subscriptions.Store.{ReminderKey, Subscription, BillingSettings, BillingEvent, update}
use printsetu.Subscriptions.Reminders.{with_sent, send_reminder, remind}
use printsetu.Subscriptions.Gateways.{ChargeResult, Gateways, note_failure}
use printsetu.Subscriptions.Renewal.{
  Renewal, cancelled_at_end, expired_row, with_term, with_paid_renewal, with_grace_period,
  cancel_at_end, expire, renew_free, renew_charged, renew_unpaid, after_charge, renew_priced,
  renew_term, renew, end_of_term,
}
use printsetu.Subscriptions.Rows.{Rows, Rows-update, rows_rules}
use printsetu.Subscriptions.Checks.{IsEnded, IsToRenew, KeepsOwn, IsKept}

pub not-true : (b : Bool) → not b ≡ true → b ≡ false
not-true true h = sym h
not-true false h = refl

not-false : (b : Bool) → not b ≡ false → b ≡ true
not-false true h = refl
not-false false h = sym h

module _ {settings : BillingSettings} {now : ℕ} {Free : ℕ → Type 0} {K : ℕ → Type 0}
    {P : Subscription → Type 0} (kept : IsKept settings now Free P) (gateways : Gateways) where
  module _ (sub : Subscription) (free : Free sub.shop_id) (p : P sub) where
    pub own-Rows :
        {C : Subscription → Type 0} (f : Subscription → Subscription → Subscription)
        → ((row : Subscription) → (f sub row).shop_id ≡ row.shop_id)
        → KeepsOwn Free P C f
        → C sub
        → Keeps (Rows K P) (update sub.shop_id (f sub))
    own-Rows f key keeps c = Rows-update sub.shop_id (f sub) key (λ row. keeps sub row free p c)

    pub remind-Rows :
        (key : ReminderKey) (event : BillingEvent) → Keeps (Rows K P) (remind sub key event)
    unfolding remind send_reminder
    remind-Rows key event =
        let writes = own-Rows (λ s. with_sent s key) (λ _. refl) (kept.reminds key) tt in
        search rows_rules depth 16

    module _ (ended : IsEnded now sub) (due : sub.cancel_at_period_end ≡ true) where
      cancel_at_end-Rows : Keeps (Rows K P) (cancel_at_end now sub)
      unfolding cancel_at_end
      cancel_at_end-Rows =
          let writes = own-Rows (λ _. cancelled_at_end now) (λ _. refl) kept.cancels (ended, due) in
          search rows_rules depth 16

    module _ (ended : IsEnded now sub) (off : sub.auto_renew ≡ false) where
      expire-Rows : Keeps (Rows K P) (expire sub)
      unfolding expire
      expire-Rows =
          let writes = own-Rows (λ _. expired_row) (λ _. refl) kept.expires (ended, off) in
          search rows_rules depth 16

    module _ (to_renew : IsToRenew now sub) where
      renew_free-Rows : (r : Renewal) → Keeps (Rows K P) (renew_free r sub)
      unfolding renew_free
      renew_free-Rows r =
          let writes = own-Rows (λ _. with_term r) (λ _. refl) (kept.renews r) to_renew in
          search rows_rules depth 16

      renew_charged-Rows :
          (r : Renewal) (i : Invoice) (c : ChargeResult)
          → Keeps (Rows K P) (renew_charged now r sub i c)
      unfolding renew_charged
      renew_charged-Rows r i c =
          let writes = own-Rows (λ _. with_paid_renewal r) (λ _. refl) (kept.pays r) to_renew in
          search rows_rules depth 16

      renew_unpaid-Rows : (r : Renewal) → Keeps (Rows K P) (renew_unpaid settings now r sub)
      unfolding renew_unpaid
      renew_unpaid-Rows r =
          let writes =
            own-Rows (λ _. with_grace_period r (add_days now settings.grace_days)) (λ _. refl)
              (kept.waits r) to_renew in
          search rows_rules depth 16

      after_charge-Rows :
          (r : Renewal) (i : Invoice) (o : Option ChargeResult)
          → Keeps (Rows K P) (after_charge settings now r sub i o)
      unfolding after_charge note_failure
      after_charge-Rows r i none = renew_unpaid-Rows r
      after_charge-Rows r i (some c) =
          search (rows_rules, renew_unpaid-Rows, renew_charged-Rows) depth 16

      renew_term-Rows : (r : Renewal) → Keeps (Rows K P) (renew_term gateways settings now r sub)
      unfolding renew_term renew_priced
      renew_term-Rows r = search (rows_rules, renew_free-Rows, after_charge-Rows) depth 20

      renew-Rows :
          (from_trial : Bool) → Keeps (Rows K P) (renew gateways settings now from_trial sub)
      unfolding renew
      renew-Rows from_trial = search (rows_rules, renew_term-Rows) depth 20

    pub end_of_term-Rows :
        IsEnded now sub
        → (from_trial : Bool) → Keeps (Rows K P) (end_of_term gateways settings now from_trial sub)
    unfolding end_of_term
    end_of_term-Rows ended from_trial = Keeps-branch-if _ _ _ (cancel_at_end-Rows ended) (λ _.
        Keeps-branch-if _ _ _ (λ off. expire-Rows ended (not-true sub.auto_renew off))
          (λ on. renew-Rows (ended, not-false sub.auto_renew on) from_trial))
