-- ===== src/Print/Repository/Moves.antt =====
-- One legal step of a job that is in the expected status, and what it leaves to the next step.
use printsetu.Base.{
  ℕ, true, false, some, Result, ok, err, ◌≡◌, arith, UniqueKeys, find_first-update_many,
  UniqueKeys-update_many, find_first-holds,
}
use printsetu.Print.Types.{PrintJobStatus, status_eq_iff}
use printsetu.Print.StateMachine.{can_transition}
use printsetu.Print.Db.{Job, Db, Error, job_key, has_id, lookup, illegal_transition}
use printsetu.Print.Repository.{TransitionOptions, is_expected, moved, transition}
use printsetu.Print.Repository.Laws.{after, outcome, transition_lem}
use printsetu.Print.History.Transitions.{KeepsRow}

-- The row that a method holds in its hands is the one in the table.
pub record IsLive (db : Db) (j : Job) : Type 0 where
  pub unique : UniqueKeys job_key db.jobs
  pub stored : lookup j.id db ≡ some j

-- What a step of job `j` to the status `to` returned and left.
pub record Moved (j : Job) (to : PrintJobStatus) (r : Result Error Job × Db) : Type 0 where
  pub job : Job
  pub db : Db
  pub returned : r ≡ (ok job, db)
  pub live : IsLive db job
  pub status : job.status ≡ to
  pub id : job.id ≡ j.id

module _ (now : ℕ) (opts : TransitionOptions) (keep : KeepsRow opts.change) (j : Job) (db : Db)
    (live : IsLive db j) (same : opts.job_id ≡ j.id) (from : opts.from ≡ j.status) where
  here : lookup opts.job_id db ≡ some j
  here = rw same live.stored

  expected : is_expected opts j ≡ true
  unfolding is_expected
  expected = ground (
    arith,
    (status_eq_iff j.status opts.from).1,
    find_first-holds (has_id opts.job_id) db.jobs j here,
  )

  moved_id : (x : Job) → (moved now opts x).id ≡ x.id
  unfolding moved
  moved_id x = (keep (record x { status = opts.to; updated_at = now })).0

  moved_to : (moved now opts j).status ≡ opts.to
  unfolding moved
  moved_to = (keep (record j { status = opts.to; updated_at = now })).1

  stays : lookup (moved now opts j).id (after now opts db) ≡ some (moved now opts j)
  unfolding after
  stays = ground (
    arith,
    moved_id j,
    expected,
    live.stored,
    find_first-update_many job_key (is_expected opts) (moved now opts) j.id db.jobs moved_id,
  )

  pub transition-Moved :
      can_transition opts.from opts.to ≡ true → Moved j opts.to (transition now opts db)
  unfolding outcome
  transition-Moved legal = record {
    job = moved now opts j;
    db = after now opts db;
    returned =
        rw (transition_lem now opts db (λ x. (keep x).0) live.unique)
          (ground (arith, here, legal, (status_eq_iff j.status opts.from).1));
    live = record { unique = u; stored = stays };
    status = moved_to;
    id = moved_id j;
  }
    where
      u : UniqueKeys job_key (after now opts db).jobs
      u =
          UniqueKeys-update_many job_key (is_expected opts) (moved now opts) db.jobs moved_id
            live.unique

  pub transition_illegal :
      can_transition opts.from opts.to ≡ false
      → transition now opts db ≡ (err (illegal_transition opts.from opts.to), db)
  unfolding outcome
  transition_illegal illegal =
      rw (transition_lem now opts db (λ x. (keep x).0) live.unique) (rw illegal)
