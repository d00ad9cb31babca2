-- ===== src/Print/Repository/Laws.antt =====
-- What a transition does to the job, to the other jobs and to the history, on every branch.
use printsetu.Base.{
  ℕ, none, some, [], ◌∷◌, ◌++◌, Result, ok, err, arith, update_many, if◌then◌else◌, ◌≡◌, inl, inr,
  Bool-cases, UniqueKeys, KeepsKey, map_option, find_first-update_many, count-by, Option-cases,
  find_first-holds, ◌>>=◌, transaction,
}
use printsetu.Print.Types.{status_eq}
use printsetu.Print.StateMachine.{can_transition}
use printsetu.Print.Db.{
  Job, Db, Error, lookup, has_id, job_key, job_already_printing, illegal_transition,
}
use printsetu.Print.Repository.{
  TransitionOptions, is_expected, moved, event_of, swap_status, transition,
}

-- The state after a transition that succeeded.
unfoldable pub after : ℕ → TransitionOptions → Db → Db
after now opts db = record db {
  jobs = update_many (is_expected opts) (moved now opts) db.jobs;
  events = db.events ++ (event_of opts ∷ []);
}

-- Every outcome of a transition: it throws and leaves the state alone, or moves one job.
unfoldable pub outcome : ℕ → TransitionOptions → Db → Result Error Job × Db
unfolding after moved
outcome now opts db =
    if can_transition opts.from opts.to
    then elim (lookup opts.job_id db) [
      | none ↦ (err job_already_printing, db)
      | some j ↦
          if status_eq j.status opts.from
          then (ok (moved now opts j), after now opts db)
          else (err job_already_printing, db)
    ]
    else (err (illegal_transition opts.from opts.to), db)

module _ (now : ℕ) (opts : TransitionOptions) (db : Db) (keep : KeepsKey job_key opts.change)
    (u : UniqueKeys job_key db.jobs) where
  moved-KeepsKey : KeepsKey job_key (moved now opts)
  unfolding moved
  moved-KeepsKey j = keep (record j { status = opts.to; updated_at = now })

  swap_status-none :
      lookup opts.job_id db ≡ none → swap_status now opts db ≡ (err job_already_printing, db)
  unfolding swap_status is_expected ◌>>=◌
  swap_status-none e =
      ground (arith, count-by job_key opts.job_id (λ j. status_eq j.status opts.from) db.jobs u)

  found_after :
      lookup opts.job_id (after now opts db)
      ≡ map_option (λ j. if is_expected opts j then moved now opts j else j) (lookup opts.job_id db)
  unfolding after
  found_after =
      find_first-update_many job_key (is_expected opts) (moved now opts) opts.job_id db.jobs
        moved-KeepsKey

  swap_status-some :
      (j : Job)
      → lookup opts.job_id db ≡ some j
      → swap_status now opts db ≡ (
          if status_eq j.status opts.from
          then (ok (moved now opts j), after now opts db)
          else (err job_already_printing, db))
  unfolding swap_status after is_expected ◌>>=◌
  swap_status-some j e = elim (Bool-cases (status_eq j.status opts.from)) [
    | inl same ↦ ground (
      arith,
      found_after,
      count-by job_key opts.job_id (λ j. status_eq j.status opts.from) db.jobs u,
      find_first-holds (has_id opts.job_id) db.jobs j,
    )
    | inr other ↦
        ground (arith, count-by job_key opts.job_id (λ j. status_eq j.status opts.from) db.jobs u)
  ]

  pub transition_lem : transition now opts db ≡ outcome now opts db
  unfolding transition outcome ◌>>=◌ transaction
  transition_lem = elim (Option-cases (lookup opts.job_id db)) [
    | inl e ↦ ground (arith, swap_status-none e)
    | inr (j, e) ↦ ground (arith, swap_status-some j e)
  ]
