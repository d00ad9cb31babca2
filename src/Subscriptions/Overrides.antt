-- ===== src/Subscriptions/Overrides.antt =====
-- printsetu-backend/src/subscriptions/subscriptions.service.ts: overrides by an administrator, and the
-- preferences.
use printsetu.Base.{
  ℕ, Bool, true, false, not, ◌||◌, Option, none, some, List, ◌==◌, leb, get_or, is_some, throw_if,
  when, transaction, if◌then◌else◌, ◌>>=◌, ◌>>◌,
}
use printsetu.Billing.Cycles.{add_days, add_cycle}
use printsetu.Subscriptions.Store.{
  SubscriptionStatus, BillingChannel, Subscription, EventType, BillingEvent, SubscriptionError,
  Method, update,
}
use printsetu.Subscriptions.Records.{notify, record_event, load, clear_renewal_reminders}

-- `dto.days ? addDays(now, dto.days) : null`
abbrev pub override_end : ℕ → Option ℕ → Option ℕ
override_end now none = none
override_end now (some days) = if days == 0 then none else some (add_days now days)

abbrev pub with_suspension : ℕ → Option ℕ → Subscription → Subscription
with_suspension now days s = record s {
  status = SubscriptionStatus.suspended;
  automation_paused = true;
  paused_until = override_end now days;
}

unfoldable pub suspend_rows : ℕ → ℕ → Option ℕ → ℕ → Method (Unit {0})
suspend_rows now shop days actor = do
  update shop (with_suspension now days)
  record_event shop (some actor) EventType.force_suspended

-- `forceSuspend`
unfoldable pub force_suspend : ℕ → ℕ → Option ℕ → ℕ → Method Subscription
force_suspend now shop days actor = do
  sub ← load shop
  transaction (suspend_rows now shop days actor)
  notify shop BillingEvent.suspended sub.notification_channels
  load shop

abbrev pub with_reactivation : ℕ → Option ℕ → Subscription → Subscription → Subscription
with_reactivation now days sub s = record s {
  status = SubscriptionStatus.active;
  grace_ends_at = none;
  past_due_since = none;
  cancel_at_period_end = false;
  cancelled_at = none;
  cancel_reason = none;
  current_period_start = if leb sub.current_period_end now then now else s.current_period_start;
  current_period_end =
      if leb sub.current_period_end now then add_cycle now sub.cycle else s.current_period_end;
  automation_paused = true;
  paused_until = override_end now days;
  reminders_sent = clear_renewal_reminders sub;
}

unfoldable pub reactivate_rows : ℕ → ℕ → Option ℕ → Subscription → ℕ → Method (Unit {0})
reactivate_rows now shop days sub actor = do
  update shop (with_reactivation now days sub)
  record_event shop (some actor) EventType.force_reactivated

-- `forceReactivate`
unfoldable pub force_reactivate : ℕ → ℕ → Option ℕ → ℕ → Method Subscription
force_reactivate now shop days actor = do
  sub ← load shop
  transaction (reactivate_rows now shop days sub actor)
  notify shop BillingEvent.reactivated sub.notification_channels
  load shop

abbrev pub without_override : Subscription → Subscription
without_override s = record s { automation_paused = false; paused_until = none }

-- `releaseOverride`
unfoldable pub release_override : ℕ → ℕ → Method Subscription
release_override shop actor = do
  sub ← load shop
  throw_if (not sub.automation_paused) SubscriptionError.no_override
  update shop without_override
  record_event shop (some actor) EventType.override_released
  load shop

-- `SubscriptionPreferencesDto`: `channels` may be left out, be null, or be a list.
pub record PreferencesDto : Type 0 where
  pub auto_renew : Option Bool
  pub channels : Option (Option (List BillingChannel))

abbrev same_flag : Bool → Bool → Bool
same_flag true b = b
same_flag false b = not b

abbrev changes_renewal : Option Bool → Subscription → Bool
changes_renewal none sub = false
changes_renewal (some b) sub = not (same_flag b sub.auto_renew)

abbrev pub with_preferences : PreferencesDto → Subscription → Subscription
with_preferences dto s = record s {
  auto_renew = get_or dto.auto_renew s.auto_renew;
  notification_channels = get_or dto.channels s.notification_channels;
}

-- `setPreferences`
unfoldable pub set_preferences : ℕ → PreferencesDto → ℕ → Method Subscription
set_preferences shop dto actor = do
  sub ← load shop
  when (changes_renewal dto.auto_renew sub || is_some dto.channels) (
      update shop (with_preferences dto)
      >> record_event shop (some actor) EventType.preferences_changed)
  load shop
