-- ===== src/Print/Jobs/Changes.antt =====
-- The document editor keeps the invariant of the orders: it changes no status and no event.
use printsetu.Base.{ℕ, suc, Bool, List, [], ◌∷◌, ◌≡◌, refl}
use printsetu.Base.Effects.Keeps.{Keeps, keeps_rules}
use printsetu.Print.Types.{PricingCombo}
use printsetu.Print.Db.{JobItem, Db, has_id}
use printsetu.Print.History.{IsSound}
use printsetu.Print.History.Transitions.{IsSound-untouched, IsSound-update}
use printsetu.Pricing.Service.{ResolvedRate, resolve_rate, get_active_rate}
use printsetu.Print.Jobs.Invariant.{find_shop_job-IsSound}
use printsetu.Print.Jobs.Editing.{
  get_editable, set_amount, reprice_item, reprice_group, reprice_combos, recomputed,
  recompute_job_amount, renumber, reorder_items, without_item, remove_item, delete_item,
  SettingsInput, with_settings, reprice_edited, change_item, assert_offered, update_item_settings,
}

editable-IsSound : (job shop : ℕ) → Keeps IsSound (get_editable job shop)
unfolding get_editable
editable-IsSound job shop = search (keeps_rules, find_shop_job-IsSound) depth 12

amount-IsSound : (item amount : ℕ) (db : Db) → IsSound db → IsSound (set_amount item amount db)
amount-IsSound item amount db s = IsSound-untouched db _ refl refl s

item-IsSound : (rate : ResolvedRate) (i : JobItem) → Keeps IsSound (reprice_item rate i)
unfolding reprice_item
item-IsSound rate i = search (keeps_rules, amount-IsSound) depth 12

rate-IsSound :
    (shop : ℕ) (combo : PricingCombo) (pages : ℕ) → Keeps IsSound (resolve_rate shop combo pages)
unfolding resolve_rate get_active_rate
rate-IsSound shop combo pages = search keeps_rules depth 14

group-IsSound :
    (shop : ℕ) (edited : List ℕ) (group : List JobItem)
    → Keeps IsSound (reprice_group shop edited group)
unfolding reprice_group
group-IsSound shop edited [] = search keeps_rules
group-IsSound shop edited (i ∷ is) = search (keeps_rules, rate-IsSound, item-IsSound) depth 12

combos-IsSound :
    (job shop : ℕ) (combos : List PricingCombo) (edited : List ℕ)
    → Keeps IsSound (reprice_combos job shop combos edited)
unfolding reprice_combos
combos-IsSound job shop combos edited = search (keeps_rules, group-IsSound) depth 12

recomputed-IsSound : (job : ℕ) (db : Db) → IsSound db → IsSound (recomputed job db)
unfolding recomputed
recomputed-IsSound job db s = IsSound-update (has_id job) _ db (λ j. (refl, refl)) s

recompute-IsSound : (job : ℕ) → Keeps IsSound (recompute_job_amount job)
unfolding recompute_job_amount
recompute-IsSound job = search (keeps_rules, recomputed-IsSound)

renumber_jobs : (n : ℕ) (ids : List ℕ) (db : Db) → (renumber n ids db).jobs ≡ db.jobs
unfolding renumber
renumber_jobs n [] db = refl
renumber_jobs n (i ∷ is) db = renumber_jobs (suc n) is _

renumber_events : (n : ℕ) (ids : List ℕ) (db : Db) → (renumber n ids db).events ≡ db.events
unfolding renumber
renumber_events n [] db = refl
renumber_events n (i ∷ is) db = renumber_events (suc n) is _

renumber-IsSound : (n : ℕ) (ids : List ℕ) (db : Db) → IsSound db → IsSound (renumber n ids db)
renumber-IsSound n ids db s =
    IsSound-untouched db _ (renumber_jobs n ids db) (renumber_events n ids db) s

-- Reordering the files of an order.
pub reorder_items-IsSound :
    (job shop : ℕ) (ids : List ℕ) → Keeps IsSound (reorder_items job shop ids)
unfolding reorder_items
reorder_items-IsSound job shop ids =
    search (keeps_rules, editable-IsSound, find_shop_job-IsSound, renumber-IsSound) depth 16

without_item-IsSound : (i : JobItem) (db : Db) → IsSound db → IsSound (without_item i db)
without_item-IsSound i db s = IsSound-untouched db _ refl refl s

remove_item-IsSound :
    (job shop : ℕ) (i : JobItem) (reprice : Bool) → Keeps IsSound (remove_item job shop i reprice)
unfolding remove_item
remove_item-IsSound job shop i reprice =
    search (keeps_rules, without_item-IsSound, combos-IsSound, recompute-IsSound) depth 14

-- Removing a file of an order.
pub delete_item-IsSound : (job shop item : ℕ) → Keeps IsSound (delete_item job shop item)
unfolding delete_item
delete_item-IsSound job shop item =
    search (keeps_rules, editable-IsSound, find_shop_job-IsSound, remove_item-IsSound) depth 18

settings-IsSound :
    (i : JobItem) (dto : SettingsInput) (db : Db) → IsSound db → IsSound (with_settings i dto db)
settings-IsSound i dto db s = IsSound-untouched db _ refl refl s

edited-IsSound :
    (job shop : ℕ) (i : JobItem) (dto : SettingsInput)
    → Keeps IsSound (reprice_edited job shop i dto)
unfolding reprice_edited
edited-IsSound job shop i dto = search (keeps_rules, combos-IsSound, recompute-IsSound) depth 12

change_item-IsSound :
    (job shop : ℕ) (i : JobItem) (dto : SettingsInput) (reprice : Bool)
    → Keeps IsSound (change_item job shop i dto reprice)
unfolding change_item
change_item-IsSound job shop i dto reprice =
    search (keeps_rules, settings-IsSound, edited-IsSound) depth 12

offered-IsSound :
    (shop : ℕ) (i : JobItem) (dto : SettingsInput) → Keeps IsSound (assert_offered shop i dto)
unfolding assert_offered get_active_rate
offered-IsSound shop i dto = search keeps_rules depth 14

-- Changing the settings of a file.
pub update_item_settings-IsSound :
    (job shop item : ℕ) (dto : SettingsInput)
    → Keeps IsSound (update_item_settings job shop item dto)
unfolding update_item_settings
update_item_settings-IsSound job shop item dto =
    search
      (keeps_rules, editable-IsSound, find_shop_job-IsSound, offered-IsSound, change_item-IsSound)
      depth 20
