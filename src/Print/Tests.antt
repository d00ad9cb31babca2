-- ===== src/Print/Tests.antt =====
-- The theorems on the print methods, at orders of a small shop.
use printsetu.Base.Effects.Yields.{has_returned}
use printsetu.Base.{
  transaction, ◌>>=◌, ok, err, ◌⊎◌, true, min, length, none, some, none, [], ◌∷◌, ◌≡◌, refl,
}
use printsetu.Print.Types.{PrintJobStatus}
use printsetu.Print.Repository.{TransitionOptions, transition, swap_status, is_expected, moved}
use printsetu.Print.Repository.Laws.{outcome, transition_lem}
use printsetu.Print.History.{IsSound}
use printsetu.Print.Jobs.Report.{AgentStatus, AgentReport, report_agent_status}
use printsetu.Print.Jobs.Outcome.{observed, expected_outcome, report_agent_status_lem}
use printsetu.Print.Db.{Error, Quote}
use printsetu.Print.Jobs.Reason.{Failure, codes, take, agent_failure_reason}
use printsetu.Print.Jobs.Reason.Bounds.{full_reason, agent_failure_reason_lem}
use printsetu.Base.{Bool, ◌&&◌, ◌==◌, count, arith}
use printsetu.Print.Types.{status_eq, status_eq_iff}
use printsetu.Print.Db.{Job}
use printsetu.Print.Jobs.Listings.{shop_queue}
use printsetu.Print.Jobs.Waiting.{WasReleased, CanBePrinted, IsOlder, shop_queue_lem}
use mathlib.Core.Path.{subst, sym}
use printsetu.Base.{All, Pairs}
use printsetu.Print.StateMachine.{allowed_transitions, can_transition}
use printsetu.Print.Jobs.Confirm.{
  confirm_from_quote, confirm_found, place_order, draw_token, create_order, create_job, auto_accept,
  is_holder, new_items,
}
use printsetu.Print.Jobs.Editing.{SettingsInput, delete_item, update_item_settings}
use printsetu.Print.Jobs.Amounts.{
  IsBalanced, delete_item-IsBalanced, update_item_settings-IsBalanced,
}
use printsetu.Print.Quote.{create_quote, store_quote}
use printsetu.Print.Quote.Priced.{IsQuote, create_quote_lem}
use printsetu.Print.Requests.Once.{confirm-once}
use printsetu.Print.Requests.{Request, run, run-IsSound}
use printsetu.Print.Samples.{
  env, job_in, shop, shop-IsSound, holder, counter, line, desk, desk-IsBalanced,
}

abbrev starting : TransitionOptions
starting = record {
  job_id = 7;
  from = PrintJobStatus.queued;
  to = PrintJobStatus.printing;
  change = λ j. j;
  agent_attempt_id = none;
  message = none;
}

transition_lem_example : transition 1000 starting shop ≡ outcome 1000 starting shop
transition_lem_example = transition_lem 1000 starting shop (λ j. refl) (refl, tt)

abbrev report : AgentStatus → AgentReport
report s = record {
  status = s;
  agent_attempt_id = [];
  failure = record { message = none; error_code = none; error_detail = none };
}

report_agent_status_lem_example :
    observed 7 (report_agent_status env 7 3 (report AgentStatus.accepted) shop)
    ≡ expected_outcome AgentStatus.accepted PrintJobStatus.queued
report_agent_status_lem_example =
    report_agent_status_lem env 7 3 (report AgentStatus.accepted) shop
      (job_in PrintJobStatus.queued) (refl, tt) refl refl

run-IsSound_example : IsSound (
    run
      ((env, Request.report 7 3 (report AgentStatus.accepted))
        ∷ (env, Request.dispatch 7)
        ∷ (env, Request.report 7 3 (report AgentStatus.printed))
        ∷ [])
      shop)
run-IsSound_example = run-IsSound _ shop shop-IsSound

counter-confirmed : has_returned (confirm_from_quote env 8 holder counter).0 ≡ true
unfolding confirm_from_quote confirm_found place_order draw_token create_order create_job is_holder
    transition swap_status is_expected moved can_transition auto_accept new_items ◌>>=◌ transaction
counter-confirmed = refl

confirm-once_example :
    let later =
      run
        ((env, Request.print 90 5) ∷ (env, Request.clear none) ∷ [])
        (confirm_from_quote env 8 holder counter).1 in
    (e : Error) × (confirm_from_quote env 8 holder later ≡ (err e, later))
confirm-once_example =
    confirm-once env 8 holder counter counter-confirmed
      ((env, Request.print 90 5) ∷ (env, Request.clear none) ∷ []) env holder

create_quote_lem_example :
    ((e : Error) × (create_quote env (line ∷ []) holder counter ≡ (err e, counter)))
    ⊎ ((q : Quote) × (create_quote env (line ∷ []) holder counter ≡ (ok q, store_quote q counter))
        × IsQuote (line ∷ []) holder counter q)
create_quote_lem_example = create_quote_lem env (line ∷ []) holder counter

delete_item-IsBalanced_example : IsBalanced 7 (delete_item 7 5 11 desk).1
delete_item-IsBalanced_example = delete_item-IsBalanced 7 5 11 desk desk-IsBalanced

abbrev two_copies : SettingsInput
two_copies = record { paper_size = none; color_mode = none; side_mode = none; copies = some 2 }

update_item_settings-IsBalanced_example :
    IsBalanced 7 (update_item_settings 7 5 12 two_copies desk).1
update_item_settings-IsBalanced_example =
    update_item_settings-IsBalanced 7 5 12 two_copies desk desk-IsBalanced

abbrev jam : Failure
jam = record {
  message = some (codes "Paper jam");
  error_code = some (codes "JAM");
  error_detail = none;
}

agent_failure_reason_lem_example :
    (length (agent_failure_reason jam) ≡ min 4000 (length (full_reason jam)))
    × (take 3999 (agent_failure_reason jam) ≡ take 3999 (full_reason jam))
agent_failure_reason_lem_example = agent_failure_reason_lem jam

abbrev waits : Job → Bool
waits j = j.shop_id == 5 && status_eq j.status PrintJobStatus.queued

waits-released :
    (j : Job) → waits j ≡ true → (j.shop_id ≡ 5) × WasReleased j.status × CanBePrinted j.status
unfolding can_transition allowed_transitions status_eq
waits-released j h =
    let e : PrintJobStatus.queued ≡ j.status = sym ((status_eq_iff j.status _).0 (ground arith)) in
    (
      ground arith,
      subst WasReleased e (WasReleased.then' WasReleased.released refl),
      subst CanBePrinted e
          (CanBePrinted.first {t = PrintJobStatus.printing} refl (CanBePrinted.last refl)),
    )

shop_queue_lem_example :
    (count waits (shop_queue 5000000 5 shop) ≡ count waits shop.jobs)
    × All (λ j. j.shop_id ≡ 5) (shop_queue 5000000 5 shop)
    × Pairs IsOlder (shop_queue 5000000 5 shop)
shop_queue_lem_example = shop_queue_lem 5000000 5 waits shop waits-released
