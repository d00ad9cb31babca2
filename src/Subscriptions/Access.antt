-- ===== src/Subscriptions/Access.antt =====
-- printsetu-backend/src/subscriptions/subscription-access.service.ts, and `ACCESS_BY_STATUS` of
-- subscription.constants.ts: what a shop may do in each state of its subscription. The clock of the
-- server, with the start of the day and of the month in its zone, is a parameter, and the jobs and the
-- printers are those of the print service.
use printsetu.Base.{
  ℕ, ◌-◌, Bool, true, false, not, ◌&&◌, Option, none, some, ◌==◌, by, count, find_first, leb,
  get_or, Result, ok, err, if◌then◌else◌, List,
}
use printsetu.Print.Types.{PrintJobStatus, is_removed}
use printsetu.Print.Db.{Job, Printer, Db}
use printsetu.Billing.Cycles.{Plan}
use printsetu.Shops.Availability.{
  AvailabilitySource, ShopAvailability, AvailabilitySettings, OpeningHours, Zone,
  effective_availability,
}
use printsetu.Subscriptions.Store.{
  SubscriptionStatus, Subscription, SubscriptionError, Store, find_subscription, find_plan,
}
use printsetu.Subscriptions.Reminders.{ceil_days}

pub data AccessLevel : Type 0 where
  full read_only suspended : AccessLevel

-- `ACCESS_BY_STATUS`
unfoldable pub access_by_status : SubscriptionStatus → AccessLevel
access_by_status SubscriptionStatus.trial = AccessLevel.full
access_by_status SubscriptionStatus.active = AccessLevel.full
access_by_status SubscriptionStatus.payment_pending = AccessLevel.full
access_by_status SubscriptionStatus.past_due = AccessLevel.read_only
access_by_status SubscriptionStatus.expired = AccessLevel.read_only
access_by_status SubscriptionStatus.cancelled = AccessLevel.read_only
access_by_status SubscriptionStatus.suspended = AccessLevel.suspended

abbrev pub is_full : AccessLevel → Bool
is_full AccessLevel.full = true
is_full _ = false

pub data Severity : Type 0 where
  info warn problem : Severity

-- `ShopAccess`, with the severity of the banner
pub record ShopAccess : Type 0 where
  pub state : Option SubscriptionStatus
  pub level : AccessLevel
  pub accepts_orders : Bool
  pub grace_ends_at : Option ℕ
  pub days_left : Option ℕ
  pub banner : Option Severity

abbrev days_until : ℕ → Option ℕ → Option ℕ
days_until now none = none
days_until now (some t) = some (ceil_days (t - now))

abbrev trial_banner : Option ℕ → Option Severity
trial_banner none = none
trial_banner (some d) = if leb d 3 then some Severity.info else none

-- The days that are left, by the status.
abbrev days_left_for : SubscriptionStatus → ℕ → Subscription → Option ℕ
days_left_for SubscriptionStatus.payment_pending now s =
    some (get_or (days_until now s.grace_ends_at) 0)
days_left_for SubscriptionStatus.trial now s = days_until now s.trial_ends_at
days_left_for _ now s = none

abbrev banner_for : SubscriptionStatus → ℕ → Subscription → Option Severity
banner_for SubscriptionStatus.payment_pending now s = some Severity.warn
banner_for SubscriptionStatus.trial now s = trial_banner (days_until now s.trial_ends_at)
banner_for SubscriptionStatus.active now s =
    if s.cancel_at_period_end then some Severity.info else none
banner_for _ now s = some Severity.problem

-- `describe`
unfoldable pub describe : ℕ → Option Subscription → ShopAccess
describe now none = record {
  state = none;
  level = AccessLevel.full;
  accepts_orders = true;
  grace_ends_at = none;
  days_left = none;
  banner = none;
}
describe now (some s) = record {
  state = some s.status;
  level = access_by_status s.status;
  accepts_orders = is_full (access_by_status s.status);
  grace_ends_at = s.grace_ends_at;
  days_left = days_left_for s.status now s;
  banner = banner_for s.status now s;
}

pub record Clock : Type 0 where
  pub now : ℕ
  pub start_of_today : ℕ
  pub start_of_month : ℕ

abbrev is_cancelled_job : PrintJobStatus → Bool
is_cancelled_job PrintJobStatus.cancelled = true
is_cancelled_job _ = false

abbrev is_order_since : ℕ → ℕ → Job → Bool
is_order_since shop start j =
    (j.shop_id == shop) && not (is_cancelled_job j.status) && leb start j.created_at

abbrev is_printer_of : ℕ → Printer → Bool
is_printer_of shop p = (p.shop_id == shop) && not (is_removed p.status)

pub record PlanUsage : Type 0 where
  pub prints_this_month : ℕ
  pub tokens_today : ℕ
  pub printers : ℕ

-- `usage`
unfoldable pub usage : Clock → ℕ → Db → PlanUsage
usage clock shop db = record {
  prints_this_month = count (is_order_since shop clock.start_of_month) db.jobs;
  tokens_today = count (is_order_since shop clock.start_of_today) db.jobs;
  printers = count (is_printer_of shop) db.printers;
}

-- `n >= limit`, where there is one
abbrev pub reaches : ℕ → Option ℕ → Bool
reaches n none = false
reaches n (some limit) = leb limit n

-- `limitReached`, which counts only where there is a limit; the message is the exception's name.
unfoldable pub limit_reached : Clock → ℕ → Plan → Db → Option SubscriptionError
limit_reached clock shop plan db =
    let used = usage clock shop db in
    if reaches used.tokens_today plan.max_tokens_per_day
    then some SubscriptionError.daily_limit
    else if reaches used.prints_this_month plan.max_prints_per_month
    then some SubscriptionError.monthly_limit
    else none

-- The switch of a shop and its opening hours.
pub record ShopSwitch : Type 0 where
  pub shop_id : ℕ
  pub settings : AvailabilitySettings
  pub opening_hours : Option OpeningHours

-- What the checks read.
pub record World : Type 0 where
  pub store : Store
  pub print : Db
  pub switches : List ShopSwitch
  pub clock : Clock
  pub zone : Zone

abbrev pub find_switch : ℕ → World → Option ShopSwitch
find_switch shop w = find_first (by (λ (s : ShopSwitch). s.shop_id) shop) w.switches

abbrev pub switch_availability : World → ShopSwitch → ShopAvailability
switch_availability w s =
    effective_availability s.settings (if s.settings.auto_schedule then s.opening_hours else none)
      w.clock.now w.zone

abbrev is_by_schedule : AvailabilitySource → Bool
is_by_schedule AvailabilitySource.schedule = true
is_by_schedule _ = false

abbrev refusal_of : ShopAvailability → Option SubscriptionError
refusal_of a =
    if a.online
    then none
    else if is_by_schedule a.source
    then some SubscriptionError.shop_closed
    else some SubscriptionError.orders_paused

-- The shopkeeper's switch, where there are settings.
abbrev pub switch_refusal : World → Option ShopSwitch → Option SubscriptionError
switch_refusal w none = none
switch_refusal w (some s) = refusal_of (switch_availability w s)

abbrev pub plan_refusal : World → ℕ → Option Plan → Option SubscriptionError
plan_refusal w shop none = none
plan_refusal w shop (some plan) = limit_reached w.clock shop plan w.print

abbrev pub plan_of_row : Store → Option Subscription → Option Plan
plan_of_row db none = none
plan_of_row db (some s) = find_plan s.plan_id db

-- `customerAvailability`, as the refusal
unfoldable pub customer_refusal : World → ℕ → Option SubscriptionError
customer_refusal w shop =
    let sub = find_subscription shop w.store in
    if not (describe w.clock.now sub).accepts_orders
    then some SubscriptionError.shop_unavailable
    else elim (switch_refusal w (find_switch shop w)) [
      | some e ↦ some e
      | none ↦ plan_refusal w shop (plan_of_row w.store sub)
    ]

abbrev refused_or_done : Option SubscriptionError → Result SubscriptionError (Unit {0})
refused_or_done none = ok tt
refused_or_done (some e) = err e

-- `assertCustomerCanOrder`
unfoldable pub assert_customer_can_order : World → ℕ → Result SubscriptionError (Unit {0})
assert_customer_can_order w shop = refused_or_done (customer_refusal w shop)

-- `assertShopCanPrint`
unfoldable pub assert_shop_can_print : World → ℕ → Result SubscriptionError (Unit {0})
assert_shop_can_print w shop =
    if is_full (describe w.clock.now (find_subscription shop w.store)).level
    then ok tt
    else err SubscriptionError.prints_paused

abbrev lacks_analytics : Option Plan → Bool
lacks_analytics none = false
lacks_analytics (some p) = not p.analytics_access

-- `assertFeature`, for the one feature that there is
unfoldable pub assert_feature : World → ℕ → Result SubscriptionError (Unit {0})
assert_feature w shop =
    if lacks_analytics (plan_of_row w.store (find_subscription shop w.store))
    then err SubscriptionError.feature_unavailable
    else ok tt

abbrev printers_allowed : Option Plan → Option ℕ
printers_allowed none = none
printers_allowed (some p) = p.max_printers

-- `assertPrinterQuota`
unfoldable pub assert_printer_quota : World → ℕ → Result SubscriptionError (Unit {0})
assert_printer_quota w shop =
    let allowed = printers_allowed (plan_of_row w.store (find_subscription shop w.store)) in
    if reaches (count (is_printer_of shop) w.print.printers) allowed
    then err SubscriptionError.printer_limit
    else ok tt
