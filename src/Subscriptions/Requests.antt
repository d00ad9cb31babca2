-- ===== src/Subscriptions/Requests.antt =====
-- Any sequence of the calls that change subscriptions: those of
-- printsetu-backend/src/subscriptions/admin-subscriptions.controller.ts, the preferences of
-- shop-subscription.controller.ts, and the runs of the periodic check.
use printsetu.Base.{ℕ, Option, List, [], ◌∷◌}
use printsetu.Print.Types.{Text}
use printsetu.Subscriptions.Store.{Store}
use printsetu.Subscriptions.Assign.{AssignPlanDto, assign}
use printsetu.Subscriptions.ChangePlan.{ChangePlanDto, change_plan, cancel_scheduled_change}
use printsetu.Subscriptions.Manage.{CancelDto, extend, extend_grace, cancel, resume}
use printsetu.Subscriptions.Pay.{MarkPaidDto, mark_paid_by_admin, refund_by_admin}
use printsetu.Subscriptions.Overrides.{
  PreferencesDto, force_suspend, force_reactivate, release_override, set_preferences,
}
use printsetu.Subscriptions.Gateways.{Gateways}
use printsetu.Subscriptions.Automation.{run_all}
use printsetu.Subscriptions.Rows.{Nobody, Rows}
use printsetu.Subscriptions.Dates.{
  IsDated, extend-IsDated, extend_grace-IsDated, cancel-IsDated, resume-IsDated,
  force_suspend-IsDated, force_reactivate-IsDated, release_override-IsDated,
  set_preferences-IsDated, cancel_scheduled_change-IsDated, change_plan-IsDated, run_all-IsDated,
}
use printsetu.Subscriptions.Dates.Opening.{assign-IsDated}
use printsetu.Subscriptions.Dates.Paying.{mark_paid_by_admin-IsDated, refund_by_admin-IsDated}

pub data SubscriptionCall : Type 0 where
  assigns : AssignPlanDto → SubscriptionCall
  changes : ChangePlanDto → SubscriptionCall
  drops_change : SubscriptionCall
  extends : ℕ → SubscriptionCall
  extends_grace : ℕ → SubscriptionCall
  cancels : CancelDto → SubscriptionCall
  resumes : SubscriptionCall
  pays : MarkPaidDto → SubscriptionCall
  refunds : ℕ → ℕ → Text → SubscriptionCall
  suspends : Option ℕ → SubscriptionCall
  reactivates : Option ℕ → SubscriptionCall
  releases : SubscriptionCall
  prefers : PreferencesDto → SubscriptionCall
  checks : SubscriptionCall

-- A call with its time, its shop and the person who makes it.
pub record TimedCall : Type 0 where
  pub now : ℕ
  pub shop : ℕ
  pub actor : ℕ
  pub call : SubscriptionCall

module _ (gateways : Gateways) where
  -- The database after a call, answered or refused.
  unfoldable pub after_call : SubscriptionCall → ℕ → ℕ → ℕ → Store → Store
  after_call (SubscriptionCall.assigns dto) now shop actor db = (assign now shop dto actor db).1
  after_call (SubscriptionCall.changes dto) now shop actor db =
      (change_plan now shop dto actor db).1
  after_call SubscriptionCall.drops_change now shop actor db =
      (cancel_scheduled_change shop actor db).1
  after_call (SubscriptionCall.extends days) now shop actor db = (extend now shop days actor db).1
  after_call (SubscriptionCall.extends_grace days) now shop actor db =
      (extend_grace now shop days actor db).1
  after_call (SubscriptionCall.cancels dto) now shop actor db = (cancel now shop dto actor db).1
  after_call SubscriptionCall.resumes now shop actor db = (resume shop actor db).1
  after_call (SubscriptionCall.pays dto) now shop actor db =
      (mark_paid_by_admin now shop dto actor db).1
  after_call (SubscriptionCall.refunds k value reason) now shop actor db =
      (refund_by_admin shop k value reason actor db).1
  after_call (SubscriptionCall.suspends days) now shop actor db =
      (force_suspend now shop days actor db).1
  after_call (SubscriptionCall.reactivates days) now shop actor db =
      (force_reactivate now shop days actor db).1
  after_call SubscriptionCall.releases now shop actor db = (release_override shop actor db).1
  after_call (SubscriptionCall.prefers dto) now shop actor db =
      (set_preferences shop dto actor db).1
  after_call SubscriptionCall.checks now shop actor db = (run_all gateways now db).1

  unfoldable pub after_calls : List TimedCall → Store → Store
  after_calls [] db = db
  after_calls (c ∷ cs) db = after_calls cs (after_call c.call c.now c.shop c.actor db)

  after_call-IsDated :
      (c : SubscriptionCall) (now shop actor : ℕ) (db : Store)
      → Rows Nobody IsDated db
      → Rows Nobody IsDated (after_call c now shop actor db)
  unfolding after_call
  after_call-IsDated (SubscriptionCall.assigns dto) now shop actor =
      (assign-IsDated now shop dto actor).at
  after_call-IsDated (SubscriptionCall.changes dto) now shop actor =
      (change_plan-IsDated now shop dto actor).at
  after_call-IsDated SubscriptionCall.drops_change now shop actor =
      (cancel_scheduled_change-IsDated shop actor).at
  after_call-IsDated (SubscriptionCall.extends days) now shop actor =
      (extend-IsDated now shop days actor).at
  after_call-IsDated (SubscriptionCall.extends_grace days) now shop actor =
      (extend_grace-IsDated now shop days actor).at
  after_call-IsDated (SubscriptionCall.cancels dto) now shop actor =
      (cancel-IsDated now shop dto actor).at
  after_call-IsDated SubscriptionCall.resumes now shop actor = (resume-IsDated shop actor).at
  after_call-IsDated (SubscriptionCall.pays dto) now shop actor =
      (mark_paid_by_admin-IsDated now shop dto actor).at
  after_call-IsDated (SubscriptionCall.refunds k value reason) now shop actor =
      (refund_by_admin-IsDated shop k value reason actor).at
  after_call-IsDated (SubscriptionCall.suspends days) now shop actor =
      (force_suspend-IsDated now shop days actor).at
  after_call-IsDated (SubscriptionCall.reactivates days) now shop actor =
      (force_reactivate-IsDated now shop days actor).at
  after_call-IsDated SubscriptionCall.releases now shop actor =
      (release_override-IsDated shop actor).at
  after_call-IsDated (SubscriptionCall.prefers dto) now shop actor =
      (set_preferences-IsDated shop dto actor).at
  after_call-IsDated SubscriptionCall.checks now shop actor = (run_all-IsDated gateways now).at

  -- Whatever administrators, shopkeepers and the periodic check do, in whichever order: every shop has
  -- one subscription at most, and a trial has its end, a pending payment the end of its grace period,
  -- an overdue one the day since when it is, and a cancelled subscription the day of its cancellation.
  pub after_calls-IsDated :
      (cs : List TimedCall) (db : Store)
      → Rows Nobody IsDated db
      → Rows Nobody IsDated (after_calls cs db)
  unfolding after_calls
  after_calls-IsDated [] db h = h
  after_calls-IsDated (c ∷ cs) db h =
      after_calls-IsDated cs (after_call c.call c.now c.shop c.actor db)
        (after_call-IsDated c.call c.now c.shop c.actor db h)
