-- ===== src/Subscriptions/Outcomes.antt =====
-- What the periodic check may make of a subscription.
use printsetu.Base.{ℕ, ◌≤◌, Option, true, false, none, some, leb, get_or, ◌≡◌, ◌⊎◌}
use printsetu.Billing.Cycles.{add_days}
use printsetu.Subscriptions.Store.{SubscriptionStatus, Subscription, BillingSettings}

-- A date that is missing or not ahead.
abbrev pub NotAhead : ℕ → Option ℕ → Type 0
NotAhead now none = Unit {0}
NotAhead now (some t) = t ≤ now

-- The trial is over, or the paid period.
abbrev pub TermIsOver : ℕ → Subscription → Type 0
TermIsOver now s =
    ((s.status ≡ SubscriptionStatus.trial) × (get_or s.trial_ends_at s.current_period_end ≤ now))
    ⊎ ((s.status ≡ SubscriptionStatus.active) × (s.current_period_end ≤ now))

module _ (settings : BillingSettings) (now : ℕ) (s : Subscription) where
  -- Nothing was paid in time: the grace period is over, or a term is and there is no grace.
  abbrev pub HasLapsed : Type 0
  HasLapsed =
      ((s.status ≡ SubscriptionStatus.payment_pending) × NotAhead now s.grace_ends_at)
      ⊎ (TermIsOver now s × (settings.grace_days ≡ 0))

  -- The days until the suspension are over, or the payment is late and there are no such days.
  abbrev pub IsDueToStop : Type 0
  IsDueToStop =
      ((s.status ≡ SubscriptionStatus.past_due)
        × (add_days (get_or s.past_due_since now) settings.suspend_after_past_due_days ≤ now))
      ⊎ (HasLapsed × (settings.suspend_after_past_due_days ≡ 0))

-- The same status with the same dates.
pub record IsAsBefore (s row : Subscription) : Type 0 where
  pub status : row.status ≡ s.status
  pub trial : row.trial_ends_at ≡ s.trial_ends_at
  pub period : row.current_period_end ≡ s.current_period_end
  pub grace : row.grace_ends_at ≡ s.grace_ends_at
  pub since : row.past_due_since ≡ s.past_due_since

-- What `s` may be after the check.
pub data Outcome (settings : BillingSettings) (now : ℕ) (s row : Subscription) : Type 0 where
  stays : IsAsBefore s row → Outcome settings now s row
  renews :
      TermIsOver now s
      → s.auto_renew ≡ true
      → row.status ≡ SubscriptionStatus.active
      → Outcome settings now s row
  expires :
      TermIsOver now s
      → s.auto_renew ≡ false
      → row.status ≡ SubscriptionStatus.expired
      → Outcome settings now s row
  ends :
      TermIsOver now s
      → s.cancel_at_period_end ≡ true
      → row.status ≡ SubscriptionStatus.cancelled
      → Outcome settings now s row
  waits :
      TermIsOver now s
      → s.auto_renew ≡ true
      → row.status ≡ SubscriptionStatus.payment_pending
      → row.grace_ends_at ≡ some (add_days now settings.grace_days)
      → Outcome settings now s row
  recovers :
      s.status ≡ SubscriptionStatus.payment_pending
      → row.status ≡ SubscriptionStatus.active
      → leb row.current_period_end now ≡ false
      → Outcome settings now s row
  lapses :
      HasLapsed settings now s
      → row.status ≡ SubscriptionStatus.past_due
      → row.past_due_since ≡ some now
      → Outcome settings now s row
  suspends :
      IsDueToStop settings now s
      → row.status ≡ SubscriptionStatus.suspended
      → Outcome settings now s row
