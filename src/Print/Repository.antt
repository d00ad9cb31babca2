-- ===== src/Print/Repository.antt =====
-- printsetu-backend/src/print/print-jobs.repository.ts: the compare-and-swap on a job's status, and
-- `NotificationsService.record` of printsetu-backend/src/notifications/notifications.service.ts.
pub mod Laws
pub mod Moves
use printsetu.Base.{
  ℕ, Bool, true, false, not, ◌&&◌, Option, none, some, List, [], ◌∷◌, ◌++◌, Action, Result, ok, err,
  ◌>>=◌, ◌>>◌, throw_if, or_throw, gets, modify, transaction, find_first, update_many, count, ◌==◌,
  if◌then◌else◌, pure,
}
use printsetu.Print.Types.{Text, PrintJobStatus, NotificationEvent, status_eq}
use printsetu.Print.StateMachine.{can_transition}
use printsetu.Print.Db.{
  Job, JobEvent, Db, Error, Method, has_id, job_already_printing, illegal_transition, row_missing,
}

-- `TransitionOptions`; `change` is the update of the other columns, `data`.
pub record TransitionOptions : Type 0 where
  pub job_id : ℕ
  pub from : PrintJobStatus
  pub to : PrintJobStatus
  pub change : Job → Job
  pub agent_attempt_id : Option Text
  pub message : Option Text

-- `where: { id: opts.jobId, status: opts.from }`
unfoldable pub is_expected : TransitionOptions → Job → Bool
is_expected opts j = has_id opts.job_id j && status_eq j.status opts.from

-- `data: { status: opts.to, ...opts.data }`, with the `@updatedAt` column.
unfoldable pub moved : ℕ → TransitionOptions → Job → Job
moved now opts j = opts.change (record j { status = opts.to; updated_at = now })

abbrev pub event_of : TransitionOptions → JobEvent
event_of opts = record {
  job_id = opts.job_id;
  status = opts.to;
  agent_attempt_id = opts.agent_attempt_id;
  message = opts.message;
}

-- the writes inside of `$transaction`
unfoldable pub swap_status : ℕ → TransitionOptions → Method Job
swap_status now opts = do
  changed ← gets (λ db. count (is_expected opts) db.jobs)
  throw_if (changed == 0) job_already_printing
  modify (λ db. record db {
    jobs = update_many (is_expected opts) (moved now opts) db.jobs;
    events = db.events ++ (event_of opts ∷ []);
  })
  found ← gets (λ db. find_first (has_id opts.job_id) db.jobs)
  or_throw found row_missing

-- `PrintJobsRepository.transition`
unfoldable pub transition : ℕ → TransitionOptions → Method Job
transition now opts = do
  throw_if (not (can_transition opts.from opts.to)) (illegal_transition opts.from opts.to)
  transaction (swap_status now opts)

-- `NotificationsService.record`
unfoldable pub notify : ℕ → ℕ → NotificationEvent → Method (Unit {0})
notify shop job event = modify (λ db. record db {
  notifications =
      db.notifications ++ (record { shop_id = shop; job_id = some job; event = event } ∷ []);
})
