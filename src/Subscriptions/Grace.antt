-- ===== src/Subscriptions/Grace.antt =====
-- A shop that has not paid yet keeps its access until the end of the grace period.
use printsetu.Base.{
  ℕ, true, false, some, leb, ◌≡◌, refl, sym, ◌∙◌, ◌⊎◌, inl, inr, UniqueKeys, arith,
}
use printsetu.Billing.Calendar.{add_cycle-later}
use printsetu.Billing.Invoices.{Invoice}
use printsetu.Subscriptions.Store.{
  SubscriptionStatus, Subscription, BillingSettings, Store, shop_key, find_subscription,
}
use printsetu.Subscriptions.Statuses.{is_trial, is_active, is_payment_pending, is_past_due}
use printsetu.Subscriptions.Gateways.{Gateways}
use printsetu.Subscriptions.Collection.{grace_is_over, with_recovery}
use printsetu.Subscriptions.Automation.{run_all}
use printsetu.Subscriptions.Rows.{Rows-only, Rows-found}
use printsetu.Subscriptions.Checks.{IsEnded, IsKept}
use printsetu.Subscriptions.Checks.All.{run_all-Rows}
use printsetu.Subscriptions.Access.{access_by_status, is_full, describe}

-- Within the grace period, or paid for.
abbrev IsGood : ℕ → Subscription → Type 0
IsGood now s =
    ((is_payment_pending s.status ≡ true) × (grace_is_over now s.grace_ends_at ≡ false))
    ⊎ ((is_active s.status ≡ true) × (leb s.current_period_end now ≡ false))

-- A status has one name.
pending_only :
    (s : SubscriptionStatus)
    → is_payment_pending s ≡ true
    → (is_trial s ≡ false) × (is_active s ≡ false) × (is_past_due s ≡ false)
pending_only SubscriptionStatus.payment_pending h = (refl, refl, refl)
pending_only _ h = cc

active_only :
    (s : SubscriptionStatus)
    → is_active s ≡ true
    → (is_trial s ≡ false) × (is_payment_pending s ≡ false) × (is_past_due s ≡ false)
active_only SubscriptionStatus.active h = (refl, refl, refl)
active_only _ h = cc

module _ (now : ℕ) (s : Subscription) (good : IsGood now s) where
  not-IsEnded : ¬ (IsEnded now s)
  not-IsEnded c = ground (arith, pending_only s.status, active_only s.status)

  not_lapsed : ¬ ((is_payment_pending s.status ≡ true) × (grace_is_over now s.grace_ends_at ≡ true))
  not_lapsed c = ground (arith, pending_only s.status, active_only s.status)

  not_late : ¬ (is_past_due s.status ≡ true)
  not_late c = ground (arith, pending_only s.status, active_only s.status)

recovery-IsGood : (now : ℕ) (i : Invoice) (s : Subscription) → IsGood now (with_recovery now i s)
recovery-IsGood now i s = inr (refl, ground (arith, add_cycle-later now i.cycle))

module _ (now k : ℕ) (settings : BillingSettings) where
  IsGood-IsKept : IsKept settings now (λ _. Unit {0}) (λ r. r.shop_id ≡ k → IsGood now r)
  IsGood-IsKept = record {
    free = λ sub p free. tt;
    releases = λ sub row free p c own q. q;
    cancels = λ sub row free p c own q same. absurd (not-IsEnded now sub (p (sym own ∙ same)) c.0);
    expires = λ sub row free p c own q same. absurd (not-IsEnded now sub (p (sym own ∙ same)) c.0);
    renews = λ r sub row free p c own q same. absurd (not-IsEnded now sub (p (sym own ∙ same)) c.0);
    pays = λ r sub row free p c own q same. absurd (not-IsEnded now sub (p (sym own ∙ same)) c.0);
    waits = λ r sub row free p c own q same. absurd (not-IsEnded now sub (p (sym own ∙ same)) c.0);
    recovers = λ i sub row free p c own q same. recovery-IsGood now i row;
    lapses = λ sub row free p c own q same. absurd (not_lapsed now sub (p (sym own ∙ same)) c);
    suspends = λ sub row free p c own q same. absurd (not_late now sub (p (sym own ∙ same)) c.0);
    reminds = λ key sub row free p c own q. q;
  }

full_while :
    (x : SubscriptionStatus)
    → (is_payment_pending x ≡ true) ⊎ (is_active x ≡ true)
    → is_full (access_by_status x) ≡ true
unfolding access_by_status
full_while SubscriptionStatus.payment_pending h = refl
full_while SubscriptionStatus.active h = refl
full_while _ (inl h) = cc
full_while _ (inr h) = cc

good_accepts :
    (t now : ℕ) (s : Subscription) → IsGood now s → (describe t (some s)).accepts_orders ≡ true
unfolding describe
good_accepts t now s (inl (h, ahead)) = full_while s.status (inl h)
good_accepts t now s (inr (h, ahead)) = full_while s.status (inr h)

-- While its grace period lasts, a shop whose payment is pending goes on accepting orders after any run
-- of the periodic check, whatever the gateways answer, where every shop has one subscription at most.
pub run_all-grace :
    (gateways : Gateways) (now t : ℕ) (db : Store) (k : ℕ) (s : Subscription)
    → UniqueKeys shop_key db.subscriptions
    → find_subscription k db ≡ some s
    → s.status ≡ SubscriptionStatus.payment_pending
    → grace_is_over now s.grace_ends_at ≡ false
    → (describe t (find_subscription k (run_all gateways now db).1)).accepts_orders ≡ true
unfolding describe
run_all-grace gateways now t db k s unique before pending ahead =
    let (s', e, good) = Rows-found (IsGood now) (run_all gateways now db).1 k (
      (run_all-Rows (IsGood-IsKept now k) gateways).at db
        (Rows-only (IsGood now) db k s before (inl (rw pending refl, ahead)) unique)) in
    rw e (good_accepts t now s' good)
