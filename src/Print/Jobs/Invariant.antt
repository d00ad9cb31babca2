-- ===== src/Print/Jobs/Invariant.antt =====
-- Every method of the print pipeline keeps the invariant of the orders.
use printsetu.Base.{ℕ, Bool, true, false, Option, none, some, refl}
use printsetu.Base.Effects.Keeps.{Keeps, Keeps-pure, keeps_rules}
use printsetu.Print.Types.{PrintJobStatus}
use printsetu.Print.Db.{Job, Printer, Db, Env, AuditEntry, has_id, find_shop_job}
use printsetu.Print.History.{IsSound}
use printsetu.Print.History.Transitions.{
  KeepsRow, transition-IsSound, notify-IsSound, IsSound-untouched, IsSound-update,
}
use printsetu.Print.Jobs.Trigger.{
  trigger_print, dispatch_to_agent, deliver, enqueue, push, queueing,
}
use printsetu.Print.Jobs.Reason.{Failure}
use printsetu.Print.Jobs.Report.{
  AgentReport, Reconciliation, report_agent_status, reconcile, requeue, advance, follow_up,
  finish_printed, finish_failed, finish_not_printed, reported_columns, reconciled_columns,
  with_reason, audited,
}

pub find_shop_job-IsSound : (job shop : ℕ) → Keeps IsSound (find_shop_job job shop)
unfolding find_shop_job
find_shop_job-IsSound job shop = search keeps_rules

enqueue-IsSound : (job : ℕ) (db : Db) → IsSound db → IsSound (enqueue job db)
enqueue-IsSound job db s = IsSound-untouched db _ refl refl s

push-IsSound : (printer job : ℕ) (db : Db) → IsSound db → IsSound (push printer job db)
push-IsSound printer job db s = IsSound-untouched db _ refl refl s

same-KeepsRow : KeepsRow (λ x. x)
same-KeepsRow x = (refl, refl)

queueing-KeepsRow : (now job : ℕ) (j : Job) (p : Printer) → KeepsRow (queueing now job j p).change
queueing-KeepsRow now job j p x = (refl, refl)

-- Sending an order to the queue keeps the invariant.
pub trigger_print-IsSound : (env : Env) (job shop : ℕ) → Keeps IsSound (trigger_print env job shop)
unfolding trigger_print
trigger_print-IsSound env job shop =
    search
      (
        keeps_rules, find_shop_job-IsSound, notify-IsSound, enqueue-IsSound, transition-IsSound,
        queueing-KeepsRow,
      )
      depth 16

deliver-IsSound :
    (env : Env) (job : ℕ) (printer : Option ℕ) → Keeps IsSound (deliver env job printer)
unfolding deliver
deliver-IsSound env job none = search (keeps_rules, transition-IsSound, same-KeepsRow) depth 12
deliver-IsSound env job (some p) = search (keeps_rules, push-IsSound) depth 12

-- Dispatching an order keeps the invariant, also where it throws for want of a connected agent.
pub dispatch_to_agent-IsSound : (env : Env) (job : ℕ) → Keeps IsSound (dispatch_to_agent env job)
unfolding dispatch_to_agent
dispatch_to_agent-IsSound env job = search (keeps_rules, deliver-IsSound) depth 12

pub reported_columns-KeepsRow :
    (now : ℕ) (to : PrintJobStatus) (f : Failure) → KeepsRow (reported_columns now to f)
unfolding reported_columns
reported_columns-KeepsRow now PrintJobStatus.printed f j = (refl, refl)
reported_columns-KeepsRow now PrintJobStatus.print_failed f j = (refl, refl)
reported_columns-KeepsRow now PrintJobStatus.print_unknown f j = (refl, refl)
reported_columns-KeepsRow now _ f j = (refl, refl)

pub reconciled_columns-KeepsRow :
    (now : ℕ) (printed : Bool) → KeepsRow (reconciled_columns now printed)
unfolding reconciled_columns
reconciled_columns-KeepsRow now true j = (refl, refl)
reconciled_columns-KeepsRow now false j = (refl, refl)

requeue-IsSound : (now : ℕ) (j : Job) (dto : AgentReport) → Keeps IsSound (requeue now j dto)
unfolding requeue
requeue-IsSound now j dto = search (keeps_rules, transition-IsSound, same-KeepsRow) depth 12

advance-IsSound : (now : ℕ) (j : Job) (dto : AgentReport) → Keeps IsSound (advance now j dto)
unfolding advance
advance-IsSound now j dto =
    search (keeps_rules, transition-IsSound, reported_columns-KeepsRow) depth 12

finish_printed-IsSound : (now shop job : ℕ) → Keeps IsSound (finish_printed now shop job)
unfolding finish_printed
finish_printed-IsSound now shop job =
    search (keeps_rules, notify-IsSound, transition-IsSound, same-KeepsRow) depth 12

finish_failed-IsSound : (shop : ℕ) (j : Job) → Keeps IsSound (finish_failed shop j)
unfolding finish_failed
finish_failed-IsSound shop j = search (keeps_rules, notify-IsSound) depth 12

follow_up-IsSound :
    (now shop : ℕ) (j : Job) (to : PrintJobStatus) → Keeps IsSound (follow_up now shop j to)
unfolding follow_up
follow_up-IsSound now shop j PrintJobStatus.printed = finish_printed-IsSound now shop j.id
follow_up-IsSound now shop j PrintJobStatus.print_failed = finish_failed-IsSound shop j
follow_up-IsSound now shop j _ = Keeps-pure j

-- A report of the Printer App keeps the invariant, whatever it says of whichever order.
pub report_agent_status-IsSound :
    (env : Env) (job printer : ℕ) (dto : AgentReport)
    → Keeps IsSound (report_agent_status env job printer dto)
unfolding report_agent_status
report_agent_status-IsSound env job printer dto =
    search (keeps_rules, requeue-IsSound, advance-IsSound, follow_up-IsSound) depth 14

with_reason-IsSound :
    (job : ℕ) (dto : Reconciliation) (db : Db) → IsSound db → IsSound (with_reason job dto db)
with_reason-IsSound job dto db s = IsSound-update (has_id job) _ db (λ j. (refl, refl)) s

audited-IsSound : (a : AuditEntry) (db : Db) → IsSound db → IsSound (audited a db)
audited-IsSound a db s = IsSound-untouched db _ refl refl s

finish_not_printed-IsSound :
    (shop : ℕ) (j : Job) (dto : Reconciliation) → Keeps IsSound (finish_not_printed shop j dto)
unfolding finish_not_printed
finish_not_printed-IsSound shop j dto =
    search (keeps_rules, notify-IsSound, with_reason-IsSound) depth 12

-- So does the shopkeeper's answer to an order that may not have printed.
pub reconcile-IsSound :
    (env : Env) (job shop : ℕ) (dto : Reconciliation) → Keeps IsSound (reconcile env job shop dto)
unfolding reconcile
reconcile-IsSound env job shop dto =
    search
      (
        keeps_rules, find_shop_job-IsSound, transition-IsSound, reconciled_columns-KeepsRow,
        finish_printed-IsSound, finish_not_printed-IsSound, audited-IsSound,
      )
      depth 16
