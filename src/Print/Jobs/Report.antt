-- ===== src/Print/Jobs/Report.antt =====
-- `PrintJobsService.reportAgentStatus` and `reconcile`: the Printer App, or the shopkeeper in its
-- place, says what became of an order.
use printsetu.Base.{
  ℕ, Bool, true, false, not, ◌&&◌, Option, none, some, [], ◌∷◌, ◌++◌, if◌then◌else◌, get_or, holds,
  pure, gets, modify, throw_if, or_throw, branch, ◌>>=◌, ◌>>◌, update_many,
}
use printsetu.Print.Types.{Text, PrintJobStatus, NotificationEvent, status_eq}
use printsetu.Print.Db.{
  Job, Db, Env, Method, AuditEntry, lookup, has_id, find_shop_job, agent_job_not_found, not_unknown,
}
use printsetu.Print.Repository.{TransitionOptions, transition, notify}
use printsetu.Print.Jobs.Reason.{codes, Failure, agent_failure_reason}

pub data AgentStatus : Type 0 where
  accepted printing printed print_failed print_unknown : AgentStatus

-- `AgentJobStatusDto`
pub record AgentReport : Type 0 where
  pub status : AgentStatus
  pub agent_attempt_id : Text
  pub failure : Failure

-- the table `map`
unfoldable pub target : AgentStatus → PrintJobStatus
target AgentStatus.accepted = PrintJobStatus.printing
target AgentStatus.printing = PrintJobStatus.printing
target AgentStatus.printed = PrintJobStatus.printed
target AgentStatus.print_failed = PrintJobStatus.print_failed
target AgentStatus.print_unknown = PrintJobStatus.print_unknown

abbrev pub requeueing : ℕ → AgentReport → TransitionOptions
requeueing job dto = record {
  job_id = job;
  from = PrintJobStatus.agent_offline;
  to = PrintJobStatus.queued;
  change = λ x. x;
  agent_attempt_id = some dto.agent_attempt_id;
  message = some (codes "Printer App picked the order up.");
}

-- An offline order that an agent reports on returns to the queue first.
unfoldable pub requeue : ℕ → Job → AgentReport → Method Job
unfolding target
requeue now j dto =
    branch
      (status_eq j.status PrintJobStatus.agent_offline
        && not (status_eq (target dto.status) PrintJobStatus.print_failed))
      (transition now (requeueing j.id dto)) (pure j)

abbrev pub is_failure : PrintJobStatus → Bool
is_failure PrintJobStatus.print_failed = true
is_failure PrintJobStatus.print_unknown = true
is_failure _ = false

-- `data` of the transition to `to`: the time of a print, or the reason of a failure.
unfoldable pub reported_columns : ℕ → PrintJobStatus → Failure → Job → Job
reported_columns now PrintJobStatus.printed f j = record j {
  printed_at = some now;
  failure_reason = none;
}
reported_columns now PrintJobStatus.print_failed f j = record j {
  failure_reason = some (agent_failure_reason f);
}
reported_columns now PrintJobStatus.print_unknown f j = record j {
  failure_reason = some (agent_failure_reason f);
}
reported_columns now to f j = j

abbrev pub reporting : ℕ → ℕ → PrintJobStatus → PrintJobStatus → AgentReport → TransitionOptions
reporting now job current to dto = record {
  job_id = job;
  from = current;
  to = to;
  change = reported_columns now to dto.failure;
  agent_attempt_id = some dto.agent_attempt_id;
  message = if is_failure to then some (agent_failure_reason dto.failure) else dto.failure.message;
}

-- A second report of the same status writes nothing.
unfoldable pub advance : ℕ → Job → AgentReport → Method Job
unfolding target reported_columns
advance now j dto =
    branch (status_eq j.status (target dto.status)) (pure j)
      (transition now (reporting now j.id j.status (target dto.status) dto))

abbrev pub retaining : ℕ → TransitionOptions
retaining job = record {
  job_id = job;
  from = PrintJobStatus.printed;
  to = PrintJobStatus.retention_pending;
  change = λ x. x;
  agent_attempt_id = none;
  message = none;
}

unfoldable pub finish_printed : ℕ → ℕ → ℕ → Method Job
finish_printed now shop job = do
  notify shop job NotificationEvent.print_completed
  transition now (retaining job)

unfoldable pub finish_failed : ℕ → Job → Method Job
finish_failed shop j = do notify shop j.id NotificationEvent.print_failed; pure j

-- What follows a report: a printed order goes on to retention, a failed one is told to the shop.
unfoldable pub follow_up : ℕ → ℕ → Job → PrintJobStatus → Method Job
unfolding finish_printed finish_failed
follow_up now shop j PrintJobStatus.printed = finish_printed now shop j.id
follow_up now shop j PrintJobStatus.print_failed = finish_failed shop j
follow_up now shop j to = pure j

-- `reportAgentStatus`
unfoldable pub report_agent_status : Env → ℕ → ℕ → AgentReport → Method Job
report_agent_status env job printer dto = do
  found ← gets (lookup job)
  j ← or_throw found agent_job_not_found
  throw_if (not (holds j.printer_id printer)) agent_job_not_found
  current ← requeue env.now j dto
  updated ← advance env.now current dto
  follow_up env.now j.shop_id updated (target dto.status)

-- `ReconcileJobDto`; `printed` stands for the outcome PRINTED.
pub record Reconciliation : Type 0 where
  pub printed : Bool
  pub message : Option Text

abbrev pub outcome_status : Bool → PrintJobStatus
outcome_status true = PrintJobStatus.printed
outcome_status false = PrintJobStatus.print_failed

unfoldable pub reconciled_columns : ℕ → Bool → Job → Job
reconciled_columns now true j = record j { printed_at = some now }
reconciled_columns now false j = j

abbrev pub reconciling : ℕ → ℕ → Reconciliation → TransitionOptions
reconciling now job dto = record {
  job_id = job;
  from = PrintJobStatus.print_unknown;
  to = outcome_status dto.printed;
  change = reconciled_columns now dto.printed;
  agent_attempt_id = none;
  message = some (get_or dto.message (codes "Manually reconciled by shopkeeper"));
}

abbrev pub with_reason : ℕ → Reconciliation → Db → Db
with_reason job dto db = record db {
  jobs =
      update_many (has_id job)
        (λ j. record j {
          failure_reason = some (get_or dto.message (codes "Marked as not printed by the shop"));
        })
        db.jobs;
}

unfoldable pub finish_not_printed : ℕ → Job → Reconciliation → Method Job
finish_not_printed shop j dto = do
  notify shop j.id NotificationEvent.print_failed
  modify (with_reason j.id dto)
  pure j

abbrev pub audited : AuditEntry → Db → Db
audited a db = record db { audit = db.audit ++ (a ∷ []) }

-- `reconcile`
unfoldable pub reconcile : Env → ℕ → ℕ → Reconciliation → Method Job
unfolding finish_printed finish_not_printed reconciled_columns
reconcile env job shop dto = do
  j ← find_shop_job job shop
  throw_if (not (status_eq j.status PrintJobStatus.print_unknown)) not_unknown
  moved ← transition env.now (reconciling env.now job dto)
  updated ← branch dto.printed (finish_printed env.now shop job) (finish_not_printed shop moved dto)
  modify (audited (AuditEntry.job_reconciled shop job dto.printed))
  pure updated
