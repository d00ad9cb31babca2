-- ===== src/Print/Requests.antt =====
-- The requests that create, move, change and remove orders: the controllers
-- printsetu-backend/src/print/print-jobs.controller.ts, the queue's worker
-- printsetu-backend/src/print/print-jobs.processor.ts and the scheduled jobs of
-- printsetu-backend/src/retention/retention.service.ts; and the orders over any sequence of them.
pub mod Consumed
pub mod Once
use printsetu.Base.{ℕ, Option, List, [], ◌∷◌}
use printsetu.Print.Db.{Db, Env, Claims}
use printsetu.Print.History.{IsSound}
use printsetu.Print.Quote.{LineInput, create_quote}
use printsetu.Print.Jobs.Confirm.{confirm_from_quote}
use printsetu.Print.Jobs.Clear.{clear_history}
use printsetu.Print.Jobs.Editing.{SettingsInput, reorder_items, delete_item, update_item_settings}
use printsetu.Print.Jobs.Trigger.{trigger_print, dispatch_to_agent}
use printsetu.Print.Jobs.Report.{AgentReport, Reconciliation, report_agent_status, reconcile}
use printsetu.Print.Retention.{
  Storage, sweep, flag_stale_printing, sweep-IsSound, flag_stale_printing-IsSound,
}
use printsetu.Print.Jobs.Creation.{
  confirm_from_quote-IsSound, clear_history-IsSound, create_quote-IsSound,
}
use printsetu.Print.Jobs.Changes.{
  reorder_items-IsSound, delete_item-IsSound, update_item_settings-IsSound,
}
use printsetu.Print.Jobs.Invariant.{
  trigger_print-IsSound, dispatch_to_agent-IsSound, report_agent_status-IsSound, reconcile-IsSound,
}

-- A request of a customer, a shopkeeper, the queue's worker, a Printer App or the schedule.
pub data Request : Type 0 where
  price : List LineInput → Claims → Request
  confirm : ℕ → Claims → Request
  print : ℕ → ℕ → Request
  dispatch : ℕ → Request
  report : ℕ → ℕ → AgentReport → Request
  answer : ℕ → ℕ → Reconciliation → Request
  reorder : ℕ → ℕ → List ℕ → Request
  remove_file : ℕ → ℕ → ℕ → Request
  change_file : ℕ → ℕ → ℕ → SettingsInput → Request
  clear : Option ℕ → Request
  clean_up : Storage → Request
  flag_stale : Request

-- The state after a request, answered or refused.
unfoldable pub serve : Env → Request → Db → Db
serve env (Request.price dto claims) db = (create_quote env dto claims db).1
serve env (Request.confirm quote claims) db = (confirm_from_quote env quote claims db).1
serve env (Request.print job shop) db = (trigger_print env job shop db).1
serve env (Request.dispatch job) db = (dispatch_to_agent env job db).1
serve env (Request.report job printer dto) db = (report_agent_status env job printer dto db).1
serve env (Request.answer job shop dto) db = (reconcile env job shop dto db).1
serve env (Request.reorder job shop ids) db = (reorder_items job shop ids db).1
serve env (Request.remove_file job shop item) db = (delete_item job shop item db).1
serve env (Request.change_file job shop item dto) db = (update_item_settings job shop item dto db).1
serve env (Request.clear shop) db = (clear_history shop db).1
serve env (Request.clean_up store) db = (sweep store db).1
serve env Request.flag_stale db = (flag_stale_printing env.now db).1

unfoldable pub run : List (Env × Request) → Db → Db
run [] db = db
run ((env, r) ∷ rs) db = run rs (serve env r db)

-- What every request keeps, every sequence of requests keeps.
pub run-keeps :
    (I : Db → Type 0)
    → ((env : Env) (r : Request) (db : Db) → I db → I (serve env r db))
    → (rs : List (Env × Request)) (db : Db) → I db
    → I (run rs db)
unfolding run
run-keeps I keep [] db i = i
run-keeps I keep ((env, r) ∷ rs) db i = run-keeps I keep rs (serve env r db) (keep env r db i)

serve-IsSound : (env : Env) (r : Request) (db : Db) → IsSound db → IsSound (serve env r db)
unfolding serve
serve-IsSound env (Request.price dto claims) = (create_quote-IsSound env dto claims).at
serve-IsSound env (Request.confirm quote claims) = (confirm_from_quote-IsSound env quote claims).at
serve-IsSound env (Request.print job shop) = (trigger_print-IsSound env job shop).at
serve-IsSound env (Request.dispatch job) = (dispatch_to_agent-IsSound env job).at
serve-IsSound env (Request.report job printer dto) =
    (report_agent_status-IsSound env job printer dto).at
serve-IsSound env (Request.answer job shop dto) = (reconcile-IsSound env job shop dto).at
serve-IsSound env (Request.reorder job shop ids) = (reorder_items-IsSound job shop ids).at
serve-IsSound env (Request.remove_file job shop item) = (delete_item-IsSound job shop item).at
serve-IsSound env (Request.change_file job shop item dto) =
    (update_item_settings-IsSound job shop item dto).at
serve-IsSound env (Request.clear shop) = (clear_history-IsSound shop).at
serve-IsSound env (Request.clean_up store) = (sweep-IsSound store).at
serve-IsSound env Request.flag_stale = (flag_stale_printing-IsSound env.now).at

-- Whatever requests come, in whichever order, answered or refused: the events recorded for an order
-- remain the path of legal steps from its creation to its present status.
pub run-IsSound : (rs : List (Env × Request)) (db : Db) → IsSound db → IsSound (run rs db)
run-IsSound = run-keeps IsSound serve-IsSound
