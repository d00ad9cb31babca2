-- ===== src/Print/Jobs/Amounts.antt =====
-- The amount of an order and the amounts of its items, through the editor of `PrintJobsService`.
use printsetu.Base.{
  ℕ, Bool, true, false, some, List, [], ◌∷◌, map_option, update_many, find_many, ◌≡◌, refl,
  transaction, when, inl, inr, arith, Option-cases, find_first-holds, find_first-update_many, ◌==◌,
  if◌then◌else◌,
}
use mathlib.Core.Option.{some-injective}
use printsetu.Base.Effects.Keeps.{Keeps, Keeps-bind, Keeps-modify, Keeps-skip, keeps_rules}
use printsetu.Base.Effects.Yields.{
  Yields, Restores, Restores-Keeps, Restores-Yields, Yields-modify, Yields-last,
  Keeps-transaction-Restores,
}
use printsetu.Print.Db.{Job, JobItem, Db, job_key, has_id, item_of, lookup, find_shop_job}
use printsetu.Pricing.Service.{get_active_rate}
use printsetu.Print.Jobs.Editing.{
  items_of, total_of, get_editable, recomputed, recompute_job_amount, remove_item, delete_item,
  SettingsInput, change_item, reprice_edited, with_settings, changed, assert_offered,
  update_item_settings,
}

-- The order's amount is the sum of its items' amounts.
abbrev pub IsBalanced : ℕ → Db → Type 0
IsBalanced job db = (j : Job) → lookup job db ≡ some j → j.amount ≡ total_of (items_of job db)

module _ (job : ℕ) where
  recomputed-IsBalanced : (db : Db) → IsBalanced job (recomputed job db)
  unfolding recomputed
  recomputed-IsBalanced db j e = elim (Option-cases (lookup job db)) [
    | inl missing ↦ cc (rw missing at (found db), e)
    | inr (y, h) ↦
        let own : has_id job y ≡ true = find_first-holds (has_id job) db.jobs y h in
        let same : some (record y { amount = total_of (items_of job db) }) ≡ some j =
          ground (arith, found db) in
        rw (← some-injective _ j same)
  ]
    where
      found :
          (db : Db)
          → lookup job (recomputed job db)
            ≡ map_option
                (λ x. if has_id job x then record x { amount = total_of (items_of job db) } else x)
                (lookup job db)
      found db = find_first-update_many job_key (has_id job) _ job db.jobs (λ x. refl)

  -- A change of the columns that a total does not read.
  total-update_many :
      (p : JobItem → Bool) (f : JobItem → JobItem)
      → ((i : JobItem) → ((f i).job_id ≡ i.job_id) × ((f i).amount ≡ i.amount))
      → (items : List JobItem)
      → total_of (find_many (item_of job) (update_many p f items))
        ≡ total_of (find_many (item_of job) items)
  total-update_many p f same [] = refl
  total-update_many p f same (i ∷ is) = ground (arith, same i, total-update_many p f same is)

  with_settings-IsBalanced :
      (i : JobItem) (dto : SettingsInput) (db : Db)
      → IsBalanced job db
      → IsBalanced job (with_settings i dto db)
  with_settings-IsBalanced i dto db b j e =
      rw (total-update_many (λ x. x.id == i.id) (changed i dto) (λ x. (refl, refl)) db.items)
        (b j e)

  recompute-Yields : Yields (IsBalanced job) (recompute_job_amount job)
  unfolding recompute_job_amount
  recompute-Yields = Yields-modify _ recomputed-IsBalanced

  remove_item-Yields :
      (shop : ℕ) (i : JobItem) (reprice : Bool)
      → Yields (IsBalanced job) (remove_item job shop i reprice)
  unfolding remove_item
  remove_item-Yields shop i reprice = Yields-last _ _ (λ _. Yields-last _ _ (λ _. recompute-Yields))

  remove_item-Keeps :
      (shop : ℕ) (i : JobItem) (reprice : Bool)
      → Keeps (IsBalanced job) (transaction (remove_item job shop i reprice))
  remove_item-Keeps shop i reprice =
      Keeps-transaction-Restores _ (Restores-Yields _ (remove_item-Yields shop i reprice))

  editable-Keeps : (shop : ℕ) → Keeps (IsBalanced job) (get_editable job shop)
  unfolding get_editable find_shop_job
  editable-Keeps shop = search keeps_rules depth 14

  found-Keeps : (shop : ℕ) → Keeps (IsBalanced job) (find_shop_job job shop)
  unfolding find_shop_job
  found-Keeps shop = search keeps_rules depth 14

  delete_item-Keeps : (shop item : ℕ) → Keeps (IsBalanced job) (delete_item job shop item)
  unfolding delete_item
  delete_item-Keeps shop item =
      search (keeps_rules, editable-Keeps, found-Keeps, remove_item-Keeps) depth 20

  priced_anew :
      (shop : ℕ) (i : JobItem) (dto : SettingsInput)
      → Yields (IsBalanced job) (when true (reprice_edited job shop i dto))
  unfolding when reprice_edited
  priced_anew shop i dto = record { after = (Yields-last _ _ (λ _. recompute-Yields)).after }

  change_item-Restores :
      (shop : ℕ) (i : JobItem) (dto : SettingsInput) (reprice : Bool)
      → Restores (IsBalanced job) (change_item job shop i dto reprice)
  unfolding change_item reprice_edited
  change_item-Restores shop i dto true =
      Restores-Yields _ (Yields-last _ _ (λ _. priced_anew shop i dto))
  change_item-Restores shop i dto false = Restores-Keeps _ (
      Keeps-bind _ _ (Keeps-modify _ (with_settings-IsBalanced i dto))
        (λ _. Keeps-skip (reprice_edited job shop i dto)))

  change_item-Keeps :
      (shop : ℕ) (i : JobItem) (dto : SettingsInput) (reprice : Bool)
      → Keeps (IsBalanced job) (transaction (change_item job shop i dto reprice))
  change_item-Keeps shop i dto reprice =
      Keeps-transaction-Restores _ (change_item-Restores shop i dto reprice)

  offered-Keeps :
      (shop : ℕ) (i : JobItem) (dto : SettingsInput)
      → Keeps (IsBalanced job) (assert_offered shop i dto)
  unfolding assert_offered get_active_rate
  offered-Keeps shop i dto = search keeps_rules depth 14

  update_item_settings-Keeps :
      (shop item : ℕ) (dto : SettingsInput)
      → Keeps (IsBalanced job) (update_item_settings job shop item dto)
  unfolding update_item_settings
  update_item_settings-Keeps shop item dto =
      search (keeps_rules, editable-Keeps, found-Keeps, offered-Keeps, change_item-Keeps) depth 20

  -- Removing a file keeps the amount of the order equal to the sum of its items, also where it is
  -- refused or fails half-way.
  pub delete_item-IsBalanced :
      (shop item : ℕ) (db : Db)
      → IsBalanced job db
      → IsBalanced job (delete_item job shop item db).1
  delete_item-IsBalanced shop item = (delete_item-Keeps shop item).at

  -- Changing the settings of a file keeps the amount of the order equal to the sum of its items,
  -- whether or not the order is priced anew, and also where the change is refused or fails half-way.
  pub update_item_settings-IsBalanced :
      (shop item : ℕ) (dto : SettingsInput) (db : Db)
      → IsBalanced job db
      → IsBalanced job (update_item_settings job shop item dto db).1
  update_item_settings-IsBalanced shop item dto = (update_item_settings-Keeps shop item dto).at
