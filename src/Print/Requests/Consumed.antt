-- ===== src/Print/Requests/Consumed.antt =====
-- No request on orders makes a consumed quote fresh again.
use printsetu.Base.{
  ℕ, suc, true, List, [], ◌∷◌, Option, none, some, is_some, ◌≡◌, refl, inl, inr, arith,
  find_first-append,
}
use printsetu.Base.Effects.Keeps.{Keeps, keeps_rules}
use printsetu.Print.Types.{NotificationEvent}
use printsetu.Print.Db.{Job, JobItem, Quote, Db, Env, Claims, find_shop_job}
use printsetu.Print.Repository.{TransitionOptions, transition, swap_status, notify}
use printsetu.Pricing.Service.{resolve_rate, get_active_rate}
use printsetu.Print.Jobs.Trigger.{trigger_print, dispatch_to_agent, deliver}
use printsetu.Print.Jobs.Report.{
  AgentReport, Reconciliation, report_agent_status, reconcile, requeue, advance, follow_up,
  finish_printed, finish_failed, finish_not_printed,
}
use printsetu.Print.Types.{PrintJobStatus}
use printsetu.Print.Jobs.Editing.{
  SettingsInput, reorder_items, delete_item, update_item_settings, renumber, reprice_group,
  reprice_combos, reprice_item, recompute_job_amount, recomputed, get_editable, change_item,
  reprice_edited, remove_item, assert_offered,
}
use printsetu.Print.Jobs.Clear.{clear_history, clear_rows, removed}
use printsetu.Print.Quote.{LineInput, create_quote, store_quote}
use printsetu.Print.Quote.Priced.{create_quote_lem}
use printsetu.Print.Jobs.Confirm.{find_quote}
use printsetu.Print.Retention.{
  Storage, sweep, sweep_job, delete_document, finish_job, flag_stale_printing, flag_job,
}

pub record IsConsumed (quote : ℕ) (db : Db) : Type 0 where
  pub row : Quote
  pub found : find_quote quote db ≡ some row
  pub consumed : is_some row.consumed_at ≡ true

-- The quote has a row.
pub record IsStored (quote : ℕ) (db : Db) : Type 0 where
  pub row : Quote
  pub found : find_quote quote db ≡ some row

module _ (quote : ℕ) where
  pub elsewhere : (db db' : Db) → db'.quotes ≡ db.quotes → IsStored quote db → IsStored quote db'
  elsewhere db db' e s = record { row = s.row; found = rw e s.found }

  -- A write to the other tables.
  pub other : (db db' : Db) → db'.quotes ≡ db.quotes → IsConsumed quote db → IsConsumed quote db'
  other db db' e c = record { row = c.row; found = rw e c.found; consumed = c.consumed }

  pub step-IsConsumed :
      (now : ℕ) (opts : TransitionOptions) → Keeps (IsConsumed quote) (transition now opts)
  unfolding transition swap_status
  step-IsConsumed now opts = search (keeps_rules, other) depth 16

  pub notify-IsConsumed :
      (shop job : ℕ) (e : NotificationEvent) → Keeps (IsConsumed quote) (notify shop job e)
  unfolding notify
  notify-IsConsumed shop job e = search (keeps_rules, other) depth 16

  pub print-IsConsumed :
      (env : Env) (job shop : ℕ) → Keeps (IsConsumed quote) (trigger_print env job shop)
  unfolding trigger_print find_shop_job
  print-IsConsumed env job shop =
      search (keeps_rules, step-IsConsumed, notify-IsConsumed, other) depth 20

  pub deliver-IsConsumed :
      (env : Env) (job : ℕ) (p : Option ℕ) → Keeps (IsConsumed quote) (deliver env job p)
  unfolding deliver
  deliver-IsConsumed env job none = search (keeps_rules, step-IsConsumed) depth 16
  deliver-IsConsumed env job (some p) = search (keeps_rules, other) depth 16

  pub dispatch-IsConsumed :
      (env : Env) (job : ℕ) → Keeps (IsConsumed quote) (dispatch_to_agent env job)
  unfolding dispatch_to_agent
  dispatch-IsConsumed env job = search (keeps_rules, deliver-IsConsumed) depth 16

  pub follow_up-IsConsumed :
      (now shop : ℕ) (j : Job) (to : PrintJobStatus)
      → Keeps (IsConsumed quote) (follow_up now shop j to)
  unfolding follow_up finish_printed finish_failed
  follow_up-IsConsumed now shop j PrintJobStatus.printed =
      search (keeps_rules, step-IsConsumed, notify-IsConsumed) depth 16
  follow_up-IsConsumed now shop j PrintJobStatus.print_failed =
      search (keeps_rules, notify-IsConsumed) depth 16
  follow_up-IsConsumed now shop j _ = search keeps_rules

  pub report-IsConsumed :
      (env : Env) (job printer : ℕ) (dto : AgentReport)
      → Keeps (IsConsumed quote) (report_agent_status env job printer dto)
  unfolding report_agent_status requeue advance
  report-IsConsumed env job printer dto =
      search (keeps_rules, step-IsConsumed, follow_up-IsConsumed) depth 20

  pub reconcile-IsConsumed :
      (env : Env) (job shop : ℕ) (dto : Reconciliation)
      → Keeps (IsConsumed quote) (reconcile env job shop dto)
  unfolding reconcile find_shop_job finish_printed finish_not_printed
  reconcile-IsConsumed env job shop dto =
      search (keeps_rules, step-IsConsumed, notify-IsConsumed, other) depth 24

  renumber_quotes : (n : ℕ) (ids : List ℕ) (db : Db) → (renumber n ids db).quotes ≡ db.quotes
  unfolding renumber
  renumber_quotes n [] db = refl
  renumber_quotes n (i ∷ is) db = renumber_quotes (suc n) is _

  pub reorder-IsConsumed :
      (job shop : ℕ) (ids : List ℕ) → Keeps (IsConsumed quote) (reorder_items job shop ids)
  unfolding reorder_items get_editable find_shop_job
  reorder-IsConsumed job shop ids = search (keeps_rules, other, renumber_quotes) depth 24

  pub group-IsConsumed :
      (shop : ℕ) (edited : List ℕ) (group : List JobItem)
      → Keeps (IsConsumed quote) (reprice_group shop edited group)
  unfolding reprice_group reprice_item resolve_rate get_active_rate
  group-IsConsumed shop edited [] = search keeps_rules
  group-IsConsumed shop edited (i ∷ is) = search (keeps_rules, other) depth 20

  pub remove-IsConsumed : (job shop item : ℕ) → Keeps (IsConsumed quote) (delete_item job shop item)
  unfolding delete_item remove_item reprice_combos recompute_job_amount recomputed get_editable
      find_shop_job
  remove-IsConsumed job shop item = search (keeps_rules, group-IsConsumed, other) depth 28

  pub change-IsConsumed :
      (job shop item : ℕ) (dto : SettingsInput)
      → Keeps (IsConsumed quote) (update_item_settings job shop item dto)
  unfolding update_item_settings change_item reprice_edited reprice_combos recompute_job_amount
      recomputed get_editable find_shop_job assert_offered get_active_rate
  change-IsConsumed job shop item dto = search (keeps_rules, group-IsConsumed, other) depth 28

  pub clear-IsConsumed : (shop : Option ℕ) → Keeps (IsConsumed quote) (clear_history shop)
  unfolding clear_history clear_rows removed
  clear-IsConsumed shop = search (keeps_rules, other) depth 20

  pub sweep_job-IsConsumed :
      (store : Storage) (c : ℕ × List _) → Keeps (IsConsumed quote) (sweep_job store c)
  unfolding sweep_job delete_document finish_job
  sweep_job-IsConsumed store (job, ds) = search (keeps_rules, step-IsConsumed, other) depth 20

  pub sweep-IsConsumed : (store : Storage) → Keeps (IsConsumed quote) (sweep store)
  unfolding sweep
  sweep-IsConsumed store = search (keeps_rules, sweep_job-IsConsumed) depth 16

  pub flag-IsConsumed : (now : ℕ) → Keeps (IsConsumed quote) (flag_stale_printing now)
  unfolding flag_stale_printing flag_job
  flag-IsConsumed now = search (keeps_rules, step-IsConsumed) depth 16

  stored-IsConsumed :
      (q : Quote) (db : Db) → IsConsumed quote db → IsConsumed quote (store_quote q db)
  stored-IsConsumed q db c = record {
    row = c.row;
    found =
        ground (arith, find_first-append (λ (x : Quote). x.id) quote db.quotes (q ∷ []), c.found);
    consumed = c.consumed;
  }

  pub create_quote-IsConsumed :
      (env : Env) (dto : List LineInput) (claims : Claims)
      → Keeps (IsConsumed quote) (create_quote env dto claims)
  create_quote-IsConsumed env dto claims = record {
    at = λ db c. elim (create_quote_lem env dto claims db) [
      | inl (e, h) ↦ rw h c
      | inr (q, h, _) ↦ rw h (stored-IsConsumed q db c)
    ];
  }
