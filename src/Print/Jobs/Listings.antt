-- ===== src/Print/Jobs/Listings.antt =====
-- What `PrintJobsService` shows of the orders: `shopQueue` and `getStatusForCustomer`.
use printsetu.Base.{
  ℕ, ◌+◌, ◌*◌, Bool, true, false, not, ◌&&◌, ◌||◌, Option, none, some, List, [], ◌∷◌, ◌==◌, leb,
  if◌then◌else◌, find_many, holds, gets, or_throw, throw_if, pure, ◌>>=◌, ◌>>◌,
}
use printsetu.Print.Types.{PrintJobStatus}
use printsetu.Print.Db.{Job, Db, Claims, Method, lookup, job_not_found, link_expired}

abbrev pub recently_printed_ms : ℕ
recently_printed_ms = 10 * 60000

-- The statuses that an order leaves by some later step.
abbrev pub is_unfinished : PrintJobStatus → Bool
is_unfinished PrintJobStatus.print_eligible = true
is_unfinished PrintJobStatus.queued = true
is_unfinished PrintJobStatus.printing = true
is_unfinished PrintJobStatus.agent_offline = true
is_unfinished PrintJobStatus.print_unknown = true
is_unfinished PrintJobStatus.print_failed = true
is_unfinished _ = false

abbrev pub was_printed : PrintJobStatus → Bool
was_printed PrintJobStatus.printed = true
was_printed PrintJobStatus.retention_pending = true
was_printed PrintJobStatus.deleted = true
was_printed _ = false

-- `printedAt: { gte: recentlyPrinted }`
abbrev pub is_recent : ℕ → Option ℕ → Bool
is_recent now none = false
is_recent now (some t) = leb now (t + recently_printed_ms)

unfoldable pub is_in_queue : ℕ → ℕ → Job → Bool
is_in_queue now shop j =
    j.shop_id == shop
    && (is_unfinished j.status || (was_printed j.status && is_recent now j.printed_at))

unfoldable pub insert_by_age : Job → List Job → List Job
insert_by_age j [] = j ∷ []
insert_by_age j (x ∷ xs) =
    let rest = insert_by_age j xs in if leb j.created_at x.created_at then j ∷ x ∷ xs else x ∷ rest

-- `orderBy: { createdAt: 'asc' }`
unfoldable pub order_by_age : List Job → List Job
order_by_age [] = []
order_by_age (j ∷ js) = insert_by_age j (order_by_age js)

-- `shopQueue`
unfoldable pub shop_queue : ℕ → ℕ → Db → List Job
shop_queue now shop db = order_by_age (find_many (is_in_queue now shop) db.jobs)

-- `getStatusForCustomer`
unfoldable pub get_status_for_customer : ℕ → Claims → Method Job
get_status_for_customer job claims = do
  found ← gets (lookup job)
  j ← or_throw found job_not_found
  throw_if (not (holds claims.print_job_id job && claims.shop_id == j.shop_id)) link_expired
  pure j
