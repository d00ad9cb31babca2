-- ===== src/Subscriptions/Ledgers/Calls.antt =====
-- Every call that changes subscriptions keeps the accounts of the invoices.
use printsetu.Base.{ℕ, Option, none, some, List, [], ◌∷◌}
use printsetu.Base.Effects.Keeps.{Keeps}
use printsetu.Print.Types.{Text}
use printsetu.Subscriptions.Store.{Store}
use printsetu.Subscriptions.Assign.{
  AssignPlanDto, insert_subscription, bill_first, open_subscription, assign,
}
use printsetu.Subscriptions.ChangePlan.{
  ChangePlanDto, bill_upgrade, change_now, schedule_change, apply_change, put_off, change_plan,
  cancel_scheduled_change,
}
use printsetu.Subscriptions.Manage.{
  CancelDto, extend_rows, extend, grace_rows, extend_grace, cancel_rows, cancel, resume,
}
use printsetu.Subscriptions.Pay.{
  MarkPaidDto, invoice_to_pay, settle, mark_paid_by_admin, refund_by_admin,
}
use printsetu.Subscriptions.Overrides.{
  PreferencesDto, suspend_rows, force_suspend, reactivate_rows, force_reactivate, release_override,
  set_preferences,
}
use printsetu.Subscriptions.Gateways.{Gateways}
use printsetu.Subscriptions.Ledgers.{HasAccounts, ledger_rules}
use printsetu.Subscriptions.Ledgers.Checks.{run_all-HasAccounts}
use printsetu.Subscriptions.Requests.{SubscriptionCall, TimedCall, after_call, after_calls}

assign-HasAccounts :
    (now shop : ℕ) (dto : AssignPlanDto) (actor : ℕ) → Keeps HasAccounts (assign now shop dto actor)
unfolding assign open_subscription insert_subscription bill_first
assign-HasAccounts now shop dto actor = search ledger_rules depth 40

change_plan-HasAccounts :
    (now shop : ℕ) (dto : ChangePlanDto) (actor : ℕ)
    → Keeps HasAccounts (change_plan now shop dto actor)
unfolding change_plan apply_change put_off schedule_change change_now bill_upgrade
change_plan-HasAccounts now shop dto actor = search ledger_rules depth 40

cancel-HasAccounts :
    (now shop : ℕ) (dto : CancelDto) (actor : ℕ) → Keeps HasAccounts (cancel now shop dto actor)
unfolding cancel cancel_rows
cancel-HasAccounts now shop dto actor = search ledger_rules depth 30

invoice_to_pay-HasAccounts : (shop : ℕ) (o : Option ℕ) → Keeps HasAccounts (invoice_to_pay shop o)
unfolding invoice_to_pay
invoice_to_pay-HasAccounts shop none = search ledger_rules depth 8
invoice_to_pay-HasAccounts shop (some k) = search ledger_rules depth 8

mark_paid_by_admin-HasAccounts :
    (now shop : ℕ) (dto : MarkPaidDto) (actor : ℕ)
    → Keeps HasAccounts (mark_paid_by_admin now shop dto actor)
unfolding mark_paid_by_admin settle
mark_paid_by_admin-HasAccounts now shop dto actor =
    search (ledger_rules, invoice_to_pay-HasAccounts) depth 30

extend-HasAccounts : (now shop days actor : ℕ) → Keeps HasAccounts (extend now shop days actor)
unfolding extend extend_rows
extend-HasAccounts now shop days actor = search ledger_rules depth 26

extend_grace-HasAccounts :
    (now shop days actor : ℕ) → Keeps HasAccounts (extend_grace now shop days actor)
unfolding extend_grace grace_rows
extend_grace-HasAccounts now shop days actor = search ledger_rules depth 26

resume-HasAccounts : (shop actor : ℕ) → Keeps HasAccounts (resume shop actor)
unfolding resume
resume-HasAccounts shop actor = search ledger_rules depth 26

cancel_scheduled_change-HasAccounts :
    (shop actor : ℕ) → Keeps HasAccounts (cancel_scheduled_change shop actor)
unfolding cancel_scheduled_change
cancel_scheduled_change-HasAccounts shop actor = search ledger_rules depth 26

refund_by_admin-HasAccounts :
    (shop k value : ℕ) (reason : Text) (actor : ℕ)
    → Keeps HasAccounts (refund_by_admin shop k value reason actor)
unfolding refund_by_admin
refund_by_admin-HasAccounts shop k value reason actor = search ledger_rules depth 26

force_suspend-HasAccounts :
    (now shop : ℕ) (days : Option ℕ) (actor : ℕ)
    → Keeps HasAccounts (force_suspend now shop days actor)
unfolding force_suspend suspend_rows
force_suspend-HasAccounts now shop days actor = search ledger_rules depth 26

force_reactivate-HasAccounts :
    (now shop : ℕ) (days : Option ℕ) (actor : ℕ)
    → Keeps HasAccounts (force_reactivate now shop days actor)
unfolding force_reactivate reactivate_rows
force_reactivate-HasAccounts now shop days actor = search ledger_rules depth 26

release_override-HasAccounts : (shop actor : ℕ) → Keeps HasAccounts (release_override shop actor)
unfolding release_override
release_override-HasAccounts shop actor = search ledger_rules depth 26

set_preferences-HasAccounts :
    (shop : ℕ) (dto : PreferencesDto) (actor : ℕ)
    → Keeps HasAccounts (set_preferences shop dto actor)
unfolding set_preferences
set_preferences-HasAccounts shop dto actor = search ledger_rules depth 26

after_call-HasAccounts :
    (c : SubscriptionCall) (gateways : Gateways) (now shop actor : ℕ) (db : Store)
    → HasAccounts db
    → HasAccounts (after_call gateways c now shop actor db)
unfolding after_call
after_call-HasAccounts (SubscriptionCall.assigns dto) gateways now shop actor =
    (assign-HasAccounts now shop dto actor).at
after_call-HasAccounts (SubscriptionCall.changes dto) gateways now shop actor =
    (change_plan-HasAccounts now shop dto actor).at
after_call-HasAccounts (SubscriptionCall.cancels dto) gateways now shop actor =
    (cancel-HasAccounts now shop dto actor).at
after_call-HasAccounts (SubscriptionCall.pays dto) gateways now shop actor =
    (mark_paid_by_admin-HasAccounts now shop dto actor).at
after_call-HasAccounts SubscriptionCall.checks gateways now shop actor =
    (run_all-HasAccounts gateways now).at
after_call-HasAccounts SubscriptionCall.drops_change gateways now shop actor =
    (cancel_scheduled_change-HasAccounts shop actor).at
after_call-HasAccounts (SubscriptionCall.extends days) gateways now shop actor =
    (extend-HasAccounts now shop days actor).at
after_call-HasAccounts (SubscriptionCall.extends_grace days) gateways now shop actor =
    (extend_grace-HasAccounts now shop days actor).at
after_call-HasAccounts SubscriptionCall.resumes gateways now shop actor =
    (resume-HasAccounts shop actor).at
after_call-HasAccounts (SubscriptionCall.refunds k value reason) gateways now shop actor =
    (refund_by_admin-HasAccounts shop k value reason actor).at
after_call-HasAccounts (SubscriptionCall.suspends days) gateways now shop actor =
    (force_suspend-HasAccounts now shop days actor).at
after_call-HasAccounts (SubscriptionCall.reactivates days) gateways now shop actor =
    (force_reactivate-HasAccounts now shop days actor).at
after_call-HasAccounts SubscriptionCall.releases gateways now shop actor =
    (release_override-HasAccounts shop actor).at
after_call-HasAccounts (SubscriptionCall.prefers dto) gateways now shop actor =
    (set_preferences-HasAccounts shop dto actor).at

-- The accounts of the invoices outlive the subscriptions' calls as well: whatever administrators,
-- shopkeepers and the periodic check do, what an invoice counts as refunded is the sum of its refunds and
-- at most its amount, and its status says whether that is nothing, a part or all.
pub after_calls-HasAccounts :
    (gateways : Gateways) (cs : List TimedCall) (db : Store)
    → HasAccounts db
    → HasAccounts (after_calls gateways cs db)
unfolding after_calls
after_calls-HasAccounts gateways [] db h = h
after_calls-HasAccounts gateways (c ∷ cs) db h =
    after_calls-HasAccounts gateways cs (after_call gateways c.call c.now c.shop c.actor db)
      (after_call-HasAccounts c.call gateways c.now c.shop c.actor db h)
