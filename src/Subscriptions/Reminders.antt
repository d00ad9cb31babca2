-- ===== src/Subscriptions/Reminders.antt =====
-- The reminders of printsetu-backend/src/subscriptions/billing-automation.service.ts. Each key is sent
-- once: the row keeps the keys that were sent.
use printsetu.Base.{
  ℕ, ◌+◌, ◌-◌, ◌/◌, Bool, true, false, not, ◌&&◌, Option, none, some, [], ◌∷◌, ◌++◌, ◌==◌, any, ltb,
  leb, get_or, pure, when, ◌>>◌,
}
use printsetu.Billing.Cycles.{BillingCycle, day_ms, days_to_ms}
use printsetu.Subscriptions.Store.{
  ReminderKey, Subscription, BillingSettings, EventType, BillingEvent, Method, update,
}
use printsetu.Subscriptions.Records.{notify, record_event}

abbrev pub same_key : ReminderKey → ReminderKey → Bool
same_key (ReminderKey.renewal_key t) (ReminderKey.renewal_key u) = t == u
same_key (ReminderKey.trial_key t) (ReminderKey.trial_key u) = t == u
same_key (ReminderKey.grace_key t) (ReminderKey.grace_key u) = t == u
same_key (ReminderKey.final_key t) (ReminderKey.final_key u) = t == u
same_key _ _ = false

unfoldable pub was_sent : ReminderKey → Subscription → Bool
was_sent key sub = any (same_key key) sub.reminders_sent

abbrev pub with_sent : Subscription → ReminderKey → Subscription → Subscription
with_sent sub key s = record s { reminders_sent = sub.reminders_sent ++ (key ∷ []) }

unfoldable pub send_reminder : Subscription → ReminderKey → BillingEvent → Method (Unit {0})
send_reminder sub key event = do
  update sub.shop_id (with_sent sub key)
  notify sub.shop_id event sub.notification_channels
  record_event sub.shop_id none EventType.reminder_sent

-- `remind`
unfoldable pub remind : Subscription → ReminderKey → BillingEvent → Method (Unit {0})
remind sub key event = when (not (was_sent key sub)) (send_reminder sub key event)

abbrev is_daily : BillingCycle → Bool
is_daily BillingCycle.daily = true
is_daily _ = false

-- Whether `end` is ahead, and at most so many days.
abbrev pub is_within : ℕ → ℕ → ℕ → Bool
is_within days now end = ltb now end && leb (end - now) (days_to_ms days)

-- A daily plan that renews by itself needs no reminder.
unfoldable pub renewal_is_near : BillingSettings → ℕ → Subscription → Bool
renewal_is_near settings now sub =
    ltb 0 settings.renewal_reminder_days
    && not (is_daily sub.cycle && sub.auto_renew && not sub.cancel_at_period_end)
    && is_within settings.renewal_reminder_days now sub.current_period_end

-- `renewalReminder`
unfoldable pub renewal_reminder : BillingSettings → ℕ → Subscription → Method (Unit {0})
renewal_reminder settings now sub =
    when (renewal_is_near settings now sub)
      (remind sub (ReminderKey.renewal_key sub.current_period_end) BillingEvent.renewal_reminder)

abbrev pub trial_end : Subscription → ℕ
trial_end sub = get_or sub.trial_ends_at sub.current_period_end

-- `trialReminder`
unfoldable pub trial_reminder : ℕ → Subscription → Method (Unit {0})
trial_reminder now sub =
    when (is_within 2 now (trial_end sub))
      (remind sub (ReminderKey.trial_key (trial_end sub)) BillingEvent.trial_ending)

-- Days, a part of one counting as one.
abbrev pub ceil_days : ℕ → ℕ
ceil_days ms = (ms + (day_ms - 1)) / day_ms

unfoldable pub grace_is_short : BillingSettings → ℕ → ℕ → Bool
grace_is_short settings now end =
    let left = ceil_days (end - now) in leb 1 left && leb left ((settings.grace_days + 1) / 2)

-- `graceReminder`
unfoldable pub grace_reminder : BillingSettings → ℕ → Subscription → Option ℕ → Method (Unit {0})
grace_reminder settings now sub none = pure tt
grace_reminder settings now sub (some end) =
    when (grace_is_short settings now end)
      (remind sub (ReminderKey.grace_key end) BillingEvent.grace_reminder)

-- `finalWarning`
unfoldable pub final_warning : ℕ → ℕ → Subscription → Method (Unit {0})
final_warning suspend_at now sub =
    when (leb (suspend_at - now) (days_to_ms 1))
      (remind sub (ReminderKey.final_key suspend_at) BillingEvent.final_warning)
