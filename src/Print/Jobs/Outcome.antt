-- ===== src/Print/Jobs/Outcome.antt =====
-- What a report of the Printer App returns and leaves, for every status of the order and of the
-- report, set beside an independent table.
use printsetu.Base.{
  ℕ, Bool, true, false, not, ◌&&◌, ◌||◌, Option, some, Result, ok, err, if◌then◌else◌, ◌≡◌, refl,
  sym, ◌∙◌, inl, inr, Bool-cases, arith, holds, map_option, UniqueKeys, ◌>>=◌, continue, ==_iff,
  find_first-holds,
}
use mathlib.Core.Path.{subst}
use printsetu.Print.Jobs.Invariant.{reported_columns-KeepsRow}
use printsetu.Print.Types.{PrintJobStatus, status_eq, status_eq_iff}
use printsetu.Print.StateMachine.{can_transition}
use printsetu.Print.Db.{Job, Db, Error, Env, job_key, has_id, lookup, illegal_transition}
use printsetu.Print.Repository.{transition, notify}
use printsetu.Print.Repository.Moves.{IsLive, Moved, transition-Moved, transition_illegal}
use printsetu.Print.Jobs.Report.{
  AgentStatus, AgentReport, report_agent_status, requeue, advance, follow_up, finish_failed, target,
  requeueing, reporting, retaining,
}

abbrev status_of : Result Error Job → Result Error PrintJobStatus
status_of (ok j) = ok j.status
status_of (err e) = err e

abbrev pub Outcome : Type 0
Outcome = Result Error PrintJobStatus × Option PrintJobStatus

-- What the caller is told, and the status that the table then holds.
unfoldable pub observed : ℕ → Result Error Job × Db → Outcome
observed job (r, db) = (status_of r, map_option (λ (j : Job). j.status) (lookup job db))

abbrev settled : PrintJobStatus → Outcome
settled s = (ok s, some s)

abbrev refused : PrintJobStatus → PrintJobStatus → Outcome
refused from to = (err (illegal_transition from to), some from)

-- The table of outcomes, one part for each report.
abbrev picked_up : PrintJobStatus → Outcome
picked_up PrintJobStatus.queued = settled PrintJobStatus.printing
picked_up PrintJobStatus.agent_offline = settled PrintJobStatus.printing
picked_up PrintJobStatus.printing = settled PrintJobStatus.printing
picked_up s = refused s PrintJobStatus.printing

abbrev done : PrintJobStatus → Outcome
done PrintJobStatus.printing = settled PrintJobStatus.retention_pending
done PrintJobStatus.print_unknown = settled PrintJobStatus.retention_pending
done PrintJobStatus.printed = settled PrintJobStatus.retention_pending
done PrintJobStatus.agent_offline = refused PrintJobStatus.queued PrintJobStatus.printed
done s = refused s PrintJobStatus.printed

abbrev failed : PrintJobStatus → Outcome
failed PrintJobStatus.queued = settled PrintJobStatus.print_failed
failed PrintJobStatus.agent_offline = settled PrintJobStatus.print_failed
failed PrintJobStatus.printing = settled PrintJobStatus.print_failed
failed PrintJobStatus.print_unknown = settled PrintJobStatus.print_failed
failed PrintJobStatus.print_failed = settled PrintJobStatus.print_failed
failed s = refused s PrintJobStatus.print_failed

abbrev unsure : PrintJobStatus → Outcome
unsure PrintJobStatus.printing = settled PrintJobStatus.print_unknown
unsure PrintJobStatus.print_unknown = settled PrintJobStatus.print_unknown
unsure PrintJobStatus.agent_offline = refused PrintJobStatus.queued PrintJobStatus.print_unknown
unsure s = refused s PrintJobStatus.print_unknown

unfoldable pub expected_outcome : AgentStatus → PrintJobStatus → Outcome
expected_outcome AgentStatus.accepted = picked_up
expected_outcome AgentStatus.printing = picked_up
expected_outcome AgentStatus.printed = done
expected_outcome AgentStatus.print_failed = failed
expected_outcome AgentStatus.print_unknown = unsure

abbrev requeued : PrintJobStatus → PrintJobStatus → PrintJobStatus
requeued s to =
    if status_eq s PrintJobStatus.agent_offline && not (status_eq to PrintJobStatus.print_failed)
    then PrintJobStatus.queued
    else s

abbrev reaches : PrintJobStatus → PrintJobStatus → Bool
reaches s to = status_eq s to || can_transition s to

abbrev finished : PrintJobStatus → PrintJobStatus
finished PrintJobStatus.printed = PrintJobStatus.retention_pending
finished s = s

steps_outcome :
    (a : AgentStatus) (s : PrintJobStatus)
    → (if reaches (requeued s (target a)) (target a)
        then settled (finished (target a))
        else refused (requeued s (target a)) (target a))
      ≡ expected_outcome a s
unfolding expected_outcome target can_transition status_eq
steps_outcome AgentStatus.accepted s = ground arith
steps_outcome _ s = ground arith

offline_legal : can_transition PrintJobStatus.agent_offline PrintJobStatus.queued ≡ true
unfolding can_transition
offline_legal = refl

printed_legal : can_transition PrintJobStatus.printed PrintJobStatus.retention_pending ≡ true
unfolding can_transition
printed_legal = refl

unmoved : (j : Job) (db : Db) → IsLive db j → Moved j j.status (ok j, db)
unmoved j db live = record {
  job = j;
  db = db;
  returned = refl;
  live = live;
  status = refl;
  id = refl;
}

module _ (now : ℕ) (dto : AgentReport) (j : Job) (db : Db) (live : IsLive db j) where
  offline_step :
      status_eq j.status PrintJobStatus.agent_offline ≡ true
      → Moved j PrintJobStatus.queued (transition now (requeueing j.id dto) db)
  offline_step e =
      transition-Moved now (requeueing j.id dto) (λ x. (refl, refl)) j db live refl
        (sym ((status_eq_iff j.status PrintJobStatus.agent_offline).0 e)) offline_legal

  requeue-Moved : Moved j (requeued j.status (target dto.status)) (requeue now j dto db)
  unfolding requeue ◌>>=◌
  requeue-Moved = elim (Bool-cases (status_eq j.status PrintJobStatus.agent_offline)) [
    | inl off ↦ elim (Bool-cases (status_eq (target dto.status) PrintJobStatus.print_failed)) [
      | inl failing ↦ rw (off, failing) (unmoved j db live)
      | inr other ↦ rw (off, other) (offline_step off)
    ]
    | inr on ↦ rw on (unmoved j db live)
  ]

  advance-Moved :
      reaches j.status (target dto.status) ≡ true
      → Moved j (target dto.status) (advance now j dto db)
  unfolding advance ◌>>=◌
  advance-Moved h = elim (Bool-cases (status_eq j.status (target dto.status))) [
    | inl same ↦ rw same (
        subst (λ s. Moved j s (ok j, db)) ((status_eq_iff j.status (target dto.status)).0 same)
          (unmoved j db live))
    | inr other ↦ rw other (
        transition-Moved now (reporting now j.id j.status (target dto.status) dto)
          (reported_columns-KeepsRow now (target dto.status) dto.failure) j db live refl refl
          (rw other at h))
  ]

  advance_illegal :
      reaches j.status (target dto.status) ≡ false
      → advance now j dto db ≡ (err (illegal_transition j.status (target dto.status)), db)
  unfolding advance ◌>>=◌
  advance_illegal h = elim (Bool-cases (status_eq j.status (target dto.status))) [
    | inl same ↦ cc (rw same at h)
    | inr other ↦ rw other (
        transition_illegal now (reporting now j.id j.status (target dto.status) dto)
          (reported_columns-KeepsRow now (target dto.status) dto.failure) j db live refl refl
          (rw other at h))
  ]

  follow_up-Moved :
      (shop : ℕ) (to : PrintJobStatus)
      → j.status ≡ to
      → Moved j (finished to) (follow_up now shop j to db)
  unfolding follow_up ◌>>=◌ notify
  follow_up-Moved shop PrintJobStatus.printed e =
      transition-Moved now (retaining j.id) (λ x. (refl, refl)) j _
        (record { unique = live.unique; stored = live.stored }) refl (sym e) printed_legal
  follow_up-Moved shop PrintJobStatus.print_failed e =
      subst (λ s. Moved j s (finish_failed shop j db)) e
        (unmoved j _ (record { unique = live.unique; stored = live.stored }))
  follow_up-Moved shop _ e = subst (λ s. Moved j s (ok j, db)) e (unmoved j db live)

observed-Moved :
    (j : Job) (to : PrintJobStatus) (r : Result Error Job × Db)
    → Moved j to r
    → observed j.id r ≡ settled to
unfolding observed
observed-Moved j to r m = rw m.returned (ground (arith, m.live.stored, m.id, m.status))

observed_refused :
    (j : Job) (db : Db) (e : Error)
    → IsLive db j
    → observed j.id (err e, db) ≡ (err e, some j.status)
unfolding observed
observed_refused j db e live = rw live.stored

-- From the order in its queue to the end of the report.
conclude : ℕ → AgentReport → ℕ → Result Error Job × Db → Result Error Job × Db
unfolding ◌>>=◌
conclude now dto shop (r, db) =
    continue r (λ j. advance now j dto >>= λ x. follow_up now shop x (target dto.status)) db

conclude-observed :
    (now : ℕ) (dto : AgentReport) (shop : ℕ) (j : Job) (db : Db)
    → IsLive db j
    → observed j.id (conclude now dto shop (ok j, db)) ≡ (
        if reaches j.status (target dto.status)
        then settled (finished (target dto.status))
        else refused j.status (target dto.status))
unfolding conclude ◌>>=◌
conclude-observed now dto shop j db live =
    elim (Bool-cases (reaches j.status (target dto.status))) [
      | inl yes' ↦
          let m = advance-Moved now dto j db live yes' in
          let f = follow_up-Moved now dto m.job m.db m.live shop (target dto.status) m.status in
          rw (yes', m.returned)
            (rw (← m.id) (observed-Moved m.job (finished (target dto.status)) _ f))
      | inr no' ↦ rw (no', advance_illegal now dto j db live no') (observed_refused j db _ live)
    ]

report_live :
    (env : Env) (printer : ℕ) (dto : AgentReport) (db : Db) (j : Job)
    → IsLive db j
    → holds j.printer_id printer ≡ true
    → observed j.id (report_agent_status env j.id printer dto db)
      ≡ expected_outcome dto.status j.status
unfolding report_agent_status conclude ◌>>=◌
report_live env printer dto db j live h =
    let m = requeue-Moved env.now dto j db live in
    let c = conclude-observed env.now dto j.shop_id m.job m.db m.live in
    let c' =
      subst
        (λ i. observed i (conclude env.now dto j.shop_id (ok m.job, m.db)) ≡ (
          if reaches m.job.status (target dto.status)
          then settled (finished (target dto.status))
          else refused m.job.status (target dto.status)))
        m.id c in
    rw (live.stored, h, m.returned) (c' ∙ rw m.status (steps_outcome dto.status j.status))

-- For an order that the reporting printer holds, what the caller is told and the status that is left
-- are those of the table, whatever the report and whatever the status of the order was.
pub report_agent_status_lem :
    (env : Env) (job printer : ℕ) (dto : AgentReport) (db : Db) (j : Job)
    → UniqueKeys job_key db.jobs
    → lookup job db ≡ some j
    → holds j.printer_id printer ≡ true
    → observed job (report_agent_status env job printer dto db)
      ≡ expected_outcome dto.status j.status
report_agent_status_lem env job printer dto db j u e h =
    let id : j.id ≡ job = (==_iff j.id job).0 (find_first-holds (has_id job) db.jobs j e) in
    let live : IsLive db j = record {
      unique = u;
      stored = subst (λ i. lookup i db ≡ some j) (sym id) e;
    } in
    subst
      (λ i.
        observed i (report_agent_status env i printer dto db)
        ≡ expected_outcome dto.status j.status)
      id (report_live env printer dto db j live h)
