-- ===== src/Print/Jobs/Trigger.antt =====
-- `PrintJobsService.triggerPrint`, `resolveShopPrinter` and `dispatchToAgent`: an order is handed to
-- the print queue, and from there to the shop's Printer App.
use printsetu.Base.{
  ℕ, ◌+◌, Bool, not, ◌&&◌, ◌||◌, Option, none, some, [], ◌∷◌, ◌++◌, ◌==◌, if◌then◌else◌, find_first,
  or_else, pure, throw, gets, modify, throw_if, or_throw, when, ◌>>=◌, ◌>>◌, by,
}
use printsetu.Print.Types.{PrintJobStatus, NotificationEvent, status_eq, is_removed}
use printsetu.Print.Db.{
  Job, Printer, PrintSettings, Db, Env, Method, lookup, find_shop_job, no_printer, order_updated,
  subscription_restricted, row_missing, agent_not_connected,
}
use printsetu.Print.Repository.{TransitionOptions, transition, notify}
use printsetu.Print.Jobs.Reason.{codes}

abbrev pub find_printer : ℕ → Db → Option Printer
find_printer printer db = find_first (by (λ (p : Printer). p.id) printer) db.printers

abbrev pub find_settings : ℕ → Db → Option PrintSettings
find_settings shop db = find_first (by (λ (s : PrintSettings). s.shop_id) shop) db.settings

-- A printer that the shop has unlinked is not used again.
abbrev pub usable : Option Printer → Option Printer
usable none = none
usable (some p) = if is_removed p.status then none else some p

abbrev pub usable_id : Option ℕ → Db → Option Printer
usable_id none db = none
usable_id (some i) db = usable (find_printer i db)

abbrev pub default_printer : Option PrintSettings → Option ℕ
default_printer none = none
default_printer (some s) = s.default_printer_id

-- `resolveShopPrinter`: the default printer, or else the first one that was registered.
unfoldable pub resolve_shop_printer : ℕ → Db → Option Printer
resolve_shop_printer shop db =
    or_else (usable_id (default_printer (find_settings shop db)) db)
      (find_first (λ p. p.shop_id == shop && not (is_removed p.status)) db.printers)

-- The printer of the previous attempt, if it is still there.
unfoldable pub printer_for : Job → ℕ → Db → Option Printer
printer_for j shop db = or_else (usable_id j.printer_id db) (resolve_shop_printer shop db)

-- The statuses from which the shopkeeper's PRINT is taken.
abbrev pub is_printable : PrintJobStatus → Bool
is_printable s =
    status_eq s PrintJobStatus.print_eligible
    || status_eq s PrintJobStatus.agent_offline
    || status_eq s PrintJobStatus.print_failed

abbrev pub queueing : ℕ → ℕ → Job → Printer → TransitionOptions
queueing now job j p = record {
  job_id = job;
  from = j.status;
  to = PrintJobStatus.queued;
  change = λ x. record x {
    printer_id = some p.id;
    queued_at = some now;
    attempt_count = x.attempt_count + 1;
  };
  agent_attempt_id = none;
  message = none;
}

abbrev pub enqueue : ℕ → Db → Db
enqueue job db = record db { dispatch_queue = db.dispatch_queue ++ (job ∷ []) }

-- `triggerPrint`
unfoldable pub trigger_print : Env → ℕ → ℕ → Method Job
trigger_print env job shop = do
  throw_if (not (env.shop_can_print shop)) subscription_restricted
  j ← find_shop_job job shop
  candidate ← gets (printer_for j shop)
  printer ← or_throw candidate no_printer
  throw_if (not (is_printable j.status)) order_updated
  updated ← transition env.now (queueing env.now job j printer)
  notify shop job NotificationEvent.print_queued
  modify (enqueue job)
  pure updated

abbrev pub going_offline : ℕ → TransitionOptions
going_offline job = record {
  job_id = job;
  from = PrintJobStatus.queued;
  to = PrintJobStatus.agent_offline;
  change = λ x. x;
  agent_attempt_id = none;
  message = some (codes "No connected agent at dispatch time.");
}

abbrev pub connected_printer : Env → Option ℕ → Option ℕ
connected_printer env none = none
connected_printer env (some p) = if env.is_connected p then some p else none

abbrev pub push : ℕ → ℕ → Db → Db
push printer job db = record db { pushed = db.pushed ++ ((printer, job) ∷ []) }

-- The job goes to the connected agent, or is marked offline and thrown back to the queue.
unfoldable pub deliver : Env → ℕ → Option ℕ → Method (Unit {0})
deliver env job none = do transition env.now (going_offline job); throw agent_not_connected
deliver env job (some printer) = modify (push printer job)

-- `dispatchToAgent`
unfoldable pub dispatch_to_agent : Env → ℕ → Method (Unit {0})
dispatch_to_agent env job = do
  found ← gets (lookup job)
  j ← or_throw found row_missing
  when (status_eq j.status PrintJobStatus.queued)
      (deliver env job (connected_printer env j.printer_id))
