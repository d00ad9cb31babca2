-- ===== src/Subscriptions/Statuses.antt =====
-- Tests on the statuses of subscriptions.
use printsetu.Base.{Bool, true, false, ◌&&◌}
use printsetu.Subscriptions.Store.{SubscriptionStatus, Subscription}

abbrev pub is_trial : SubscriptionStatus → Bool
is_trial SubscriptionStatus.trial = true
is_trial _ = false

abbrev pub is_active : SubscriptionStatus → Bool
is_active SubscriptionStatus.active = true
is_active _ = false

abbrev pub is_expired : SubscriptionStatus → Bool
is_expired SubscriptionStatus.expired = true
is_expired _ = false

abbrev pub is_cancelled : SubscriptionStatus → Bool
is_cancelled SubscriptionStatus.cancelled = true
is_cancelled _ = false

abbrev pub is_suspended : SubscriptionStatus → Bool
is_suspended SubscriptionStatus.suspended = true
is_suspended _ = false

abbrev pub is_payment_pending : SubscriptionStatus → Bool
is_payment_pending SubscriptionStatus.payment_pending = true
is_payment_pending _ = false

abbrev pub is_past_due : SubscriptionStatus → Bool
is_past_due SubscriptionStatus.past_due = true
is_past_due _ = false

-- A suspension by an administrator stays.
abbrev pub is_held : Subscription → Bool
is_held sub = sub.automation_paused && is_suspended sub.status
