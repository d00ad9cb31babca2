-- ===== src/Print/Jobs/Editing.antt =====
-- The shop's document editor in `PrintJobsService`: the order of the files, their removal and their
-- settings, and the prices that follow.
use printsetu.Base.{
  ℕ, suc, ◌*◌, Bool, not, ◌&&◌, Option, List, [], ◌∷◌, ◌==◌, map, length, sum_of, all, includes,
  get_or, find_first, find_many, update_many, delete_many, if◌then◌else◌, pure, gets, modify,
  throw_if, or_throw, when, for_each, transaction, ◌>>=◌, ◌>>◌,
}
use printsetu.Print.Types.{
  PaperSize, ColorMode, SideMode, PricingCombo, PrintJobStatus, DocumentStatus, status_eq, combo_eq,
}
use printsetu.Print.Db.{
  Job, JobItem, Document, Db, Method, has_id, item_of, find_shop_job, sent_to_printer, list_changed,
  item_not_found, only_file,
}
use printsetu.Pricing.Service.{ResolvedRate, resolve_rate, get_active_rate, is_pricing_enabled}

abbrev pub items_of : ℕ → Db → List JobItem
items_of job db = find_many (item_of job) db.items

-- `getEditableJobOrThrow`, without the items that it includes
unfoldable pub get_editable : ℕ → ℕ → Method Job
get_editable job shop = do
  j ← find_shop_job job shop
  throw_if (not (status_eq j.status PrintJobStatus.print_eligible)) sent_to_printer
  pure j

abbrev pub set_amount : ℕ → ℕ → Db → Db
set_amount item amount db = record db {
  items = update_many (λ (i : JobItem). i.id == item) (λ i. record i { amount = amount }) db.items;
}

-- the amount of one line of `toReprice`
unfoldable pub reprice_item : ResolvedRate → JobItem → Method (Unit {0})
reprice_item rate i = modify (set_amount i.id (rate.price_per_page * i.billable_pages))

-- With tiers the whole group is priced anew, else only the edited items.
unfoldable pub to_reprice : ResolvedRate → List ℕ → List JobItem → List JobItem
to_reprice rate edited group =
    if rate.has_tiers then group else find_many (λ i. includes edited i.id) group

abbrev pub total_pages : List JobItem → ℕ
total_pages group = sum_of (λ (i : JobItem). i.billable_pages) group

-- The items of one combination.
unfoldable pub reprice_group : ℕ → List ℕ → List JobItem → Method (Unit {0})
reprice_group shop edited [] = pure tt
reprice_group shop edited (i ∷ is) = do
  rate ← resolve_rate shop i.combo (total_pages (i ∷ is))
  for_each (reprice_item rate) (to_reprice rate edited (i ∷ is))

-- `new Set(combos.map(comboKey))`, in the order of insertion
unfoldable pub distinct : List PricingCombo → List PricingCombo
distinct [] = []
distinct (c ∷ cs) = c ∷ find_many (λ d. not (combo_eq d c)) (distinct cs)

abbrev pub group_of : PricingCombo → List JobItem → List JobItem
group_of c items = find_many (λ (i : JobItem). combo_eq i.combo c) items

-- `repriceCombos`
unfoldable pub reprice_combos : ℕ → ℕ → List PricingCombo → List ℕ → Method (Unit {0})
reprice_combos job shop combos edited = do
  items ← gets (items_of job)
  for_each (λ c. reprice_group shop edited (group_of c items)) (distinct combos)

-- `shouldReprice`
unfoldable pub should_reprice : Job → ℕ → Db → Bool
should_reprice j shop db = j.priced && is_pricing_enabled shop db

abbrev pub total_of : List JobItem → ℕ
total_of items = sum_of (λ (i : JobItem). i.amount) items

unfoldable pub recomputed : ℕ → Db → Db
recomputed job db = record db {
  jobs =
      update_many (has_id job) (λ (j : Job). record j { amount = total_of (items_of job db) })
        db.jobs;
}

-- `recomputeJobAmount`
unfoldable pub recompute_job_amount : ℕ → Method (Unit {0})
recompute_job_amount job = modify (recomputed job)

-- `itemIds.length !== items.length || ids.size !== requested.size || !ids.every(requested.has)`
unfoldable pub is_same_list : List ℕ → List ℕ → Bool
is_same_list current requested =
    length requested == length current
    && length (without_repeats current) == length (without_repeats requested)
    && all (includes requested) current
  where
    without_repeats : List ℕ → List ℕ
    without_repeats [] = []
    without_repeats (n ∷ ns) =
        let rest = without_repeats ns in if includes rest n then rest else n ∷ rest

unfoldable pub renumber : ℕ → List ℕ → Db → Db
renumber n [] db = db
renumber n (i ∷ is) db = renumber (suc n) is (record db {
  items = update_many (λ (x : JobItem). x.id == i) (λ x. record x { print_order = n }) db.items;
})

-- `reorderItems`
unfoldable pub reorder_items : ℕ → ℕ → List ℕ → Method Job
reorder_items job shop ids = do
  j ← get_editable job shop
  items ← gets (items_of job)
  throw_if (not (is_same_list (map (λ (i : JobItem). i.id) items) ids)) list_changed
  transaction (modify (renumber 0 ids))
  find_shop_job job shop

-- The row goes, and its document can be ordered again.
abbrev pub without_item : JobItem → Db → Db
without_item item db = record db {
  items = delete_many (λ (i : JobItem). i.id == item.id) db.items;
  documents =
      update_many (λ (d : Document). d.id == item.document_id)
        (λ d. record d { status = DocumentStatus.processed }) db.documents;
}

unfoldable pub remove_item : ℕ → ℕ → JobItem → Bool → Method (Unit {0})
remove_item job shop item reprice = do
  modify (without_item item)
  when reprice (reprice_combos job shop (item.combo ∷ []) [])
  recompute_job_amount job

abbrev pub find_item : ℕ → List JobItem → Option JobItem
find_item item items = find_first (λ (i : JobItem). i.id == item) items

-- `deleteItem`
unfoldable pub delete_item : ℕ → ℕ → ℕ → Method Job
delete_item job shop item = do
  j ← get_editable job shop
  items ← gets (items_of job)
  i ← or_throw (find_item item items) item_not_found
  throw_if (length items == 1) only_file
  reprice ← gets (should_reprice j shop)
  transaction (remove_item job shop i reprice)
  find_shop_job job shop

-- `UpdateItemSettingsDto`
pub record SettingsInput : Type 0 where
  pub paper_size : Option PaperSize
  pub color_mode : Option ColorMode
  pub side_mode : Option SideMode
  pub copies : Option ℕ

abbrev pub new_combo : SettingsInput → JobItem → PricingCombo
new_combo dto i = record {
  paper_size = get_or dto.paper_size i.combo.paper_size;
  color_mode = get_or dto.color_mode i.combo.color_mode;
  side_mode = get_or dto.side_mode i.combo.side_mode;
}

abbrev pub changed : JobItem → SettingsInput → JobItem → JobItem
changed i dto x = record x {
  combo = new_combo dto i;
  copies = get_or dto.copies i.copies;
  billable_pages = i.page_count * get_or dto.copies i.copies;
}

abbrev pub with_settings : JobItem → SettingsInput → Db → Db
with_settings i dto db = record db {
  items = update_many (λ (x : JobItem). x.id == i.id) (changed i dto) db.items;
}

-- Both the old and the new combination of the item are priced anew.
unfoldable pub reprice_edited : ℕ → ℕ → JobItem → SettingsInput → Method (Unit {0})
reprice_edited job shop i dto = do
  reprice_combos job shop (i.combo ∷ new_combo dto i ∷ []) (i.id ∷ [])
  recompute_job_amount job

unfoldable pub change_item : ℕ → ℕ → JobItem → SettingsInput → Bool → Method (Unit {0})
change_item job shop i dto reprice = do
  modify (with_settings i dto)
  when reprice (reprice_edited job shop i dto)

-- A priced order needs a rate for the new combination before anything is written.
unfoldable pub assert_offered : ℕ → JobItem → SettingsInput → Method (Unit {0})
assert_offered shop i dto = do get_active_rate shop (new_combo dto i); pure tt

-- `updateItemSettings`
unfoldable pub update_item_settings : ℕ → ℕ → ℕ → SettingsInput → Method Job
update_item_settings job shop item dto = do
  j ← get_editable job shop
  items ← gets (items_of job)
  i ← or_throw (find_item item items) item_not_found
  reprice ← gets (should_reprice j shop)
  when reprice (assert_offered shop i dto)
  transaction (change_item job shop i dto reprice)
  find_shop_job job shop
