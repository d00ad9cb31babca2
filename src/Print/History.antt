-- ===== src/Print/History.antt =====
-- The invariant of the orders: the events recorded for a job tell its whole life, from its creation
-- to its present status, and every step of it is one that the state machine allows.
pub mod Transitions
pub mod Rows
use printsetu.Base.{
  ℕ, Bool, true, false, Option, none, some, List, [], ◌∷◌, ◌++◌, find_first, ◌==◌, if◌then◌else◌,
  ◌≡◌, refl, inl, inr, Bool-cases, arith, UniqueKeys, ==_iff,
}
use printsetu.Print.Types.{PrintJobStatus}
use printsetu.Print.StateMachine.{can_transition}
use printsetu.Print.Db.{Job, JobEvent, Db, job_key, lookup}

-- A life of a job: the statuses it went through, and the one it is in.
pub data Trace : List PrintJobStatus → PrintJobStatus → Type 0 where
  start : Trace (PrintJobStatus.created ∷ []) PrintJobStatus.created
  step :
      {past : List PrintJobStatus} {a : PrintJobStatus} (b : PrintJobStatus)
      → Trace past a
      → can_transition a b ≡ true
      → Trace (past ++ (b ∷ [])) b

-- The statuses that the events of one job record, oldest first.
unfoldable pub history : ℕ → List JobEvent → List PrintJobStatus
history job [] = []
history job (e ∷ es) = if e.job_id == job then e.status ∷ history job es else history job es

pub record IsSound (db : Db) : Type 0 where
  pub unique : UniqueKeys job_key db.jobs
  pub traced : (k : ℕ) (j : Job) → lookup k db ≡ some j → Trace (history k db.events) j.status
  pub untracked : (k : ℕ) → lookup k db ≡ none → history k db.events ≡ []

pub history-append :
    (k : ℕ) (es : List JobEvent) (e : JobEvent)
    → history k (es ++ (e ∷ []))
      ≡ (if e.job_id == k then history k es ++ (e.status ∷ []) else history k es)
unfolding history
history-append k [] e = ground arith
history-append k (x ∷ es) e = ground (arith, history-append k es e)
