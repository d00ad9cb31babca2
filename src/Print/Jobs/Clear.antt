-- ===== src/Print/Jobs/Clear.antt =====
-- `PrintJobsService.clearHistory`: the finished orders of a shop, or of all shops, are removed.
use printsetu.Base.{
  ℕ, Bool, true, false, ◌&&◌, ◌||◌, Option, none, some, List, ◌==◌, map, length, find_many,
  update_many, delete_many, includes, pure, gets, modify, when, not, transaction, ◌>>=◌, ◌>>◌,
}
use printsetu.Print.Types.{PrintJobStatus, status_eq}
use printsetu.Print.Db.{Job, JobItem, JobEvent, Notification, Db, Method, AuditEntry}
use printsetu.Print.Jobs.Report.{audited}

-- `CLEARABLE_STATUSES`
abbrev pub is_clearable : PrintJobStatus → Bool
is_clearable s = status_eq s PrintJobStatus.deleted || status_eq s PrintJobStatus.cancelled

-- Without a shop the orders of every shop are meant.
abbrev pub is_of_shop : Option ℕ → ℕ → Bool
is_of_shop none s = true
is_of_shop (some shop) s = s == shop

unfoldable pub clearable : Option ℕ → Db → List ℕ
clearable shop db =
    map (λ (j : Job). j.id)
      (find_many (λ (j : Job). is_clearable j.status && is_of_shop shop j.shop_id) db.jobs)

abbrev pub is_about : List ℕ → Option ℕ → Bool
is_about ids none = false
is_about ids (some job) = includes ids job

-- The notifications stay, without their order; its events, its items and the order itself go.
unfoldable pub removed : List ℕ → Db → Db
removed ids db = record db {
  notifications =
      update_many (λ (n : Notification). is_about ids n.job_id) (λ n. record n { job_id = none })
        db.notifications;
  events = delete_many (λ (e : JobEvent). includes ids e.job_id) db.events;
  items = delete_many (λ (i : JobItem). includes ids i.job_id) db.items;
  jobs = delete_many (λ (j : Job). includes ids j.id) db.jobs;
}

unfoldable pub clear_rows : Option ℕ → Method ℕ
clear_rows shop = do
  ids ← gets (clearable shop)
  when (not (length ids == 0)) (modify (removed ids))
  pure (length ids)

-- `clearHistory`
unfoldable pub clear_history : Option ℕ → Method ℕ
clear_history shop = do
  cleared ← transaction (clear_rows shop)
  modify (audited (AuditEntry.history_cleared shop cleared))
  pure cleared
