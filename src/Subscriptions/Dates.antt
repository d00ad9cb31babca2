-- ===== src/Subscriptions/Dates.antt =====
-- The dates that go with the status of a subscription, and that every method keeps them.
pub mod Opening
pub mod Paying
use printsetu.Base.{
  ℕ, Bool, true, false, Option, none, some, List, [], is_some, ◌≡◌, refl, inl, inr, Bool-cases,
  Option-cases, any, by, UniqueKeys-append, All-append, ◌>>=◌, ◌>>◌, Action, if◌then◌else◌, ◌==◌,
}
use printsetu.Base.Effects.Keeps.{Keeps, keeps_rules}
use printsetu.Base.Effects.Gives.{Gives, Gives-pure, Gives-branch, Gives-after, Keeps-given}
use printsetu.Billing.Cycles.{Plan, BillingCycle}
use printsetu.Print.Types.{Text}
use printsetu.Subscriptions.Store.{
  SubscriptionStatus, Subscription, BillingSettings, Store, shop_key, find_subscription, update,
}
use printsetu.Subscriptions.Statuses.{is_trial, is_expired, is_active}
use printsetu.Subscriptions.Records.{load}
use printsetu.Subscriptions.Assign.{
  AssignPlanDto, Terms, trial_terms, active_terms, unpaid_terms, new_subscription,
  append_subscription, insert_subscription, bill_first, open_subscription, assign,
}
use printsetu.Subscriptions.ChangePlan.{
  ChangePlanDto, changed, bill_upgrade, change_now, schedule_change, apply_change, put_off,
  change_plan, cancel_scheduled_change,
}
use printsetu.Subscriptions.Manage.{
  CancelDto, with_extension, with_grace, with_cancellation, extend_rows, extend, grace_rows,
  extend_grace, void_invoices, cancel_rows, cancel, resume,
}
use printsetu.Subscriptions.Overrides.{
  PreferencesDto, suspend_rows, force_suspend, reactivate_rows, force_reactivate, release_override,
  set_preferences,
}
use printsetu.Subscriptions.Gateways.{Gateways}
use printsetu.Subscriptions.Automation.{run_all}
use printsetu.Subscriptions.Rows.{
  Nobody, Rows, Rows-load, Rows-update, Rows-on_ledger, Rows-create_invoice, rows_rules,
}
use printsetu.Subscriptions.Checks.{IsKept}
use printsetu.Subscriptions.Checks.All.{run_all-Rows}

-- A trial has its end, a pending payment the end of its grace period, an overdue one the day since when
-- it is, and a cancelled subscription the day of its cancellation.
unfoldable pub Dated : SubscriptionStatus → Option ℕ → Option ℕ → Option ℕ → Option ℕ → Type 0
Dated SubscriptionStatus.trial ends grace since ended = is_some ends ≡ true
Dated SubscriptionStatus.payment_pending ends grace since ended = is_some grace ≡ true
Dated SubscriptionStatus.past_due ends grace since ended = is_some since ≡ true
Dated SubscriptionStatus.cancelled ends grace since ended = is_some ended ≡ true
Dated _ ends grace since ended = Unit {0}

abbrev pub IsDated : Subscription → Type 0
IsDated s = Dated s.status s.trial_ends_at s.grace_ends_at s.past_due_since s.cancelled_at

module _ (t g p c : Option ℕ) where
  Dated-active : Dated SubscriptionStatus.active t g p c
  unfolding Dated
  Dated-active = tt

  Dated-suspended : Dated SubscriptionStatus.suspended t g p c
  unfolding Dated
  Dated-suspended = tt

  -- The end of a trial may be moved.
  Dated-trial :
      (x : ℕ) (status : SubscriptionStatus) → Dated status t g p c → Dated status (some x) g p c
  unfolding Dated
  Dated-trial x SubscriptionStatus.trial d = refl
  Dated-trial x SubscriptionStatus.active d = d
  Dated-trial x SubscriptionStatus.payment_pending d = d
  Dated-trial x SubscriptionStatus.past_due d = d
  Dated-trial x SubscriptionStatus.expired d = d
  Dated-trial x SubscriptionStatus.cancelled d = d
  Dated-trial x SubscriptionStatus.suspended d = d

IsDated-IsKept :
    (now : ℕ) (settings : BillingSettings) → IsKept settings now (λ _. Unit {0}) IsDated
unfolding Dated
IsDated-IsKept now settings = record {
  free = λ sub p free. tt;
  releases = λ sub row free p c own q. q;
  cancels = λ sub row free p c own q. refl;
  expires = λ sub row free p c own q. tt;
  renews = λ r sub row free p c own q. tt;
  pays = λ r sub row free p c own q. tt;
  waits = λ r sub row free p c own q. refl;
  recovers = λ i sub row free p c own q. tt;
  lapses = λ sub row free p c own q. refl;
  suspends = λ sub row free p c own q. tt;
  reminds = λ key sub row free p c own q. q;
}

pub run_all-IsDated :
    (gateways : Gateways) (now : ℕ) → Keeps (Rows Nobody IsDated) (run_all gateways now)
run_all-IsDated gateways now = run_all-Rows (IsDated-IsKept now) gateways

extended-IsDated :
    (sub : Subscription) (end : ℕ) (s : Subscription)
    → IsDated s
    → IsDated (with_extension sub end s)
extended-IsDated sub end s d = elim (Bool-cases (is_expired sub.status)) [
  | inl expired' ↦ rw expired' (Dated-active _ _ _ _)
  | inr no' ↦ elim (Bool-cases (is_trial sub.status)) [
    | inl trial' ↦ rw (no', trial') (Dated-trial _ _ _ _ end s.status d)
    | inr other' ↦ rw (no', other') d
  ]
]

grace-IsDated : (shop end : ℕ) → Keeps (Rows Nobody IsDated) (update shop (with_grace end))
unfolding Dated
grace-IsDated shop end = Rows-update shop (with_grace end) (λ s. refl) (λ s own d. refl)

cancellation-IsDated :
    (now shop : ℕ) (reason : Text)
    → Keeps (Rows Nobody IsDated) (update shop (with_cancellation now reason))
unfolding Dated
cancellation-IsDated now shop reason =
    Rows-update shop (with_cancellation now reason) (λ s. refl) (λ s own d. refl)

ruleset dated_rules = (
  rows_rules, Rows-load, Dated-active, Dated-suspended, extended-IsDated, grace-IsDated,
  cancellation-IsDated,
)

load-Rows : (shop : ℕ) → Keeps (Rows Nobody IsDated) (load shop)
unfolding load
load-Rows shop = search rows_rules depth 8

pub extend-IsDated :
    (now shop days actor : ℕ) → Keeps (Rows Nobody IsDated) (extend now shop days actor)
unfolding extend extend_rows
extend-IsDated now shop days actor = search (dated_rules, load-Rows) depth 24

pub extend_grace-IsDated :
    (now shop days actor : ℕ) → Keeps (Rows Nobody IsDated) (extend_grace now shop days actor)
unfolding extend_grace grace_rows
extend_grace-IsDated now shop days actor = search (dated_rules, load-Rows) depth 24

pub cancel-IsDated :
    (now shop : ℕ) (dto : CancelDto) (actor : ℕ)
    → Keeps (Rows Nobody IsDated) (cancel now shop dto actor)
unfolding cancel cancel_rows void_invoices
cancel-IsDated now shop dto actor = search (dated_rules, load-Rows) depth 28

pub resume-IsDated : (shop actor : ℕ) → Keeps (Rows Nobody IsDated) (resume shop actor)
unfolding resume
resume-IsDated shop actor = search (dated_rules, load-Rows) depth 24

pub force_suspend-IsDated :
    (now shop : ℕ) (days : Option ℕ) (actor : ℕ)
    → Keeps (Rows Nobody IsDated) (force_suspend now shop days actor)
unfolding force_suspend suspend_rows
force_suspend-IsDated now shop days actor = search (dated_rules, load-Rows) depth 24

pub force_reactivate-IsDated :
    (now shop : ℕ) (days : Option ℕ) (actor : ℕ)
    → Keeps (Rows Nobody IsDated) (force_reactivate now shop days actor)
unfolding force_reactivate reactivate_rows
force_reactivate-IsDated now shop days actor = search (dated_rules, load-Rows) depth 24

pub release_override-IsDated :
    (shop actor : ℕ) → Keeps (Rows Nobody IsDated) (release_override shop actor)
unfolding release_override
release_override-IsDated shop actor = search (dated_rules, load-Rows) depth 24

pub set_preferences-IsDated :
    (shop : ℕ) (dto : PreferencesDto) (actor : ℕ)
    → Keeps (Rows Nobody IsDated) (set_preferences shop dto actor)
unfolding set_preferences
set_preferences-IsDated shop dto actor = search (dated_rules, load-Rows) depth 24

pub cancel_scheduled_change-IsDated :
    (shop actor : ℕ) → Keeps (Rows Nobody IsDated) (cancel_scheduled_change shop actor)
unfolding cancel_scheduled_change
cancel_scheduled_change-IsDated shop actor = search (dated_rules, load-Rows) depth 24

changed-IsDated :
    (now shop : ℕ) (fresh : Bool) (next : Plan) (cycle : BillingCycle)
    → Keeps (Rows Nobody IsDated) (update shop (changed now fresh next cycle))
changed-IsDated now shop true next cycle =
    Rows-update shop (changed now true next cycle) (λ s. refl) (λ s own d. d)
changed-IsDated now shop false next cycle =
    Rows-update shop (changed now false next cycle) (λ s. refl) (λ s own d. d)

change_now-IsDated :
    (now shop : ℕ) (sub : Subscription) (old next : Plan) (cycle : BillingCycle) (actor : ℕ)
    → Keeps (Rows Nobody IsDated) (change_now now shop sub old next cycle actor)
unfolding change_now bill_upgrade
change_now-IsDated now shop sub old next cycle actor = search (rows_rules, changed-IsDated) depth 24

pub change_plan-IsDated :
    (now shop : ℕ) (dto : ChangePlanDto) (actor : ℕ)
    → Keeps (Rows Nobody IsDated) (change_plan now shop dto actor)
unfolding change_plan apply_change put_off schedule_change
change_plan-IsDated now shop dto actor =
    search (dated_rules, load-Rows, change_now-IsDated) depth 30
