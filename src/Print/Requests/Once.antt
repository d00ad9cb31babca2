-- ===== src/Print/Requests/Once.antt =====
-- A quote becomes at most one order.
use printsetu.Base.{
  ℕ, Bool, true, List, some, is_some, ◌≡◌, refl, inl, inr, Option-cases, Bool-cases, arith, ◌==◌,
  map_option, if◌then◌else◌, find_first-update_many, find_first-holds, ==_iff, ◌>>=◌, err, throw_if,
}
use printsetu.Base.Effects.Keeps.{Keeps, Keeps-pure, Keeps-throw_if, keeps_rules}
use printsetu.Base.Effects.Yields.{
  Leads, Leads-first, Leads-last, Leads-modify, Leads-transaction, has_returned,
}
use printsetu.Print.Db.{Job, Quote, Db, Env, Claims, Error, link_expired, already_sent}
use printsetu.Print.Jobs.Confirm.{
  find_quote, confirm_from_quote, place_order, create_order, create_job, draw_token, auto_accept,
  print_now, consume, new_job, is_holder, confirm_found,
}
use printsetu.Print.Requests.{Request, serve, run, run-keeps}
use printsetu.Print.Requests.Consumed.{
  IsStored, elsewhere, IsConsumed, other, create_quote-IsConsumed, step-IsConsumed,
  print-IsConsumed, dispatch-IsConsumed, report-IsConsumed, reconcile-IsConsumed,
  reorder-IsConsumed, remove-IsConsumed, change-IsConsumed, clear-IsConsumed, sweep-IsConsumed,
  flag-IsConsumed,
}

abbrev quote_key : Quote → ℕ
quote_key q = q.id

module _ (quote : ℕ) (env : Env) where
  found_after :
      (q : Quote) (db : Db)
      → find_quote quote (consume env q db)
        ≡ map_option
            (λ x. if x.id == q.id then record x { consumed_at = some env.now } else x)
            (find_quote quote db)
  found_after q db = find_first-update_many quote_key _ _ quote db.quotes (λ x. refl)

  consume-IsConsumed :
      (q : Quote) (db : Db) → IsConsumed quote db → IsConsumed quote (consume env q db)
  consume-IsConsumed q db c = elim (Bool-cases (c.row.id == q.id)) [
    | inl same ↦ record {
      row = record c.row { consumed_at = some env.now };
      found = ground (arith, found_after q db, c.found);
      consumed = refl;
    }
    | inr differs ↦ record {
      row = c.row;
      found = ground (arith, found_after q db, c.found);
      consumed = c.consumed;
    }
  ]

  consume-consumes :
      (q : Quote)
      → q.id ≡ quote
      → (db : Db) → IsStored quote db
      → IsConsumed quote (consume env q db)
  consume-consumes q id db s = record {
    row = record s.row { consumed_at = some env.now };
    found = ground (
      arith,
      found_after q db,
      id,
      s.found,
      find_first-holds (λ (z : Quote). z.id == quote) db.quotes s.row s.found,
    );
    consumed = refl;
  }

  create_job-IsConsumed : (j : Job) → Keeps (IsConsumed quote) (create_job j)
  unfolding create_job
  create_job-IsConsumed j = search (keeps_rules, other quote) depth 16

  order-IsConsumed : (q : Quote) (token : ℕ) → Keeps (IsConsumed quote) (create_order env q token)
  unfolding create_order
  order-IsConsumed q token =
      search (keeps_rules, create_job-IsConsumed, consume-IsConsumed) depth 16

  create_job-IsStored : (j : Job) → Keeps (IsStored quote) (create_job j)
  unfolding create_job
  create_job-IsStored j = search (keeps_rules, elsewhere quote) depth 16

  token-IsStored : Keeps (IsStored quote) draw_token
  unfolding draw_token
  token-IsStored = search (keeps_rules, elsewhere quote) depth 16

  order-consumes :
      (q : Quote) (token : ℕ)
      → q.id ≡ quote
      → Leads (IsStored quote) (IsConsumed quote) (create_order env q token)
  unfolding create_order
  order-consumes q token id =
      Leads-last _ _ (create_job-IsStored (new_job env q token))
        (λ j. Leads-first _ _ (Leads-modify _ (consume-consumes q id)) (λ _. Keeps-pure j))

  token-IsConsumed : Keeps (IsConsumed quote) draw_token
  unfolding draw_token
  token-IsConsumed = search (keeps_rules, other quote) depth 16

  accept-IsConsumed : (j : Job) (shop : ℕ) → Keeps (IsConsumed quote) (auto_accept env j shop)
  unfolding auto_accept print_now
  accept-IsConsumed j shop = search (keeps_rules, print-IsConsumed) depth 16

  place_order-IsConsumed : (q : Quote) → Keeps (IsConsumed quote) (place_order env q)
  unfolding place_order
  place_order-IsConsumed q =
      search (keeps_rules, token-IsConsumed, order-IsConsumed, step-IsConsumed, accept-IsConsumed)
        depth 20

  place_order-consumes :
      (q : Quote) → q.id ≡ quote → Leads (IsStored quote) (IsConsumed quote) (place_order env q)
  unfolding place_order
  place_order-consumes q id = Leads-last _ _ token-IsStored (λ token.
      Leads-first _ _ (Leads-transaction _ (order-consumes q token id))
        (λ j. search (keeps_rules, step-IsConsumed, accept-IsConsumed) depth 16))

confirm-IsConsumed :
    (quote : ℕ) (env : Env) (other_quote : ℕ) (claims : Claims)
    → Keeps (IsConsumed quote) (confirm_from_quote env other_quote claims)
unfolding confirm_from_quote confirm_found
confirm-IsConsumed quote env other_quote claims =
    search (keeps_rules, place_order-IsConsumed) depth 24

guard-IsStored : (quote : ℕ) (b : Bool) (e : Error) → Keeps (IsStored quote) (throw_if b e)
guard-IsStored quote b e = Keeps-throw_if b e

confirm_found-consumes :
    (quote : ℕ) (env : Env) (claims : Claims) (q : Quote)
    → q.id ≡ quote
    → Leads (IsStored quote) (IsConsumed quote) (confirm_found env claims q)
unfolding confirm_found
confirm_found-consumes quote env claims q id = Leads-last _ _ (guard-IsStored quote _ _) (λ _.
    Leads-last _ _ (guard-IsStored quote _ _) (λ _. Leads-last _ _ (guard-IsStored quote _ _) (λ _.
      Leads-last _ _ (guard-IsStored quote _ _) (λ _.
        Leads-last _ _ (guard-IsStored quote _ _) (λ _. place_order-consumes quote env q id)))))

confirm-consumes :
    (quote : ℕ) (env : Env) (claims : Claims) (db : Db)
    → has_returned (confirm_from_quote env quote claims db).0 ≡ true
    → IsConsumed quote (confirm_from_quote env quote claims db).1
unfolding confirm_from_quote ◌>>=◌
confirm-consumes quote env claims db ret = elim (Option-cases (find_quote quote db)) [
  | inl missing ↦ cc (rw missing at ret)
  | inr (q, e) ↦
      let id : q.id ≡ quote =
        (==_iff q.id quote).0 (find_first-holds (λ (x : Quote). x.id == quote) db.quotes q e) in
      rw e (
        (confirm_found-consumes quote env claims q id).after db (record { row = q; found = e })
          (rw e at ret))
]

serve-IsConsumed :
    (quote : ℕ) (env : Env) (r : Request) (db : Db)
    → IsConsumed quote db
    → IsConsumed quote (serve env r db)
unfolding serve
serve-IsConsumed quote env (Request.price dto claims) =
    (create_quote-IsConsumed quote env dto claims).at
serve-IsConsumed quote env (Request.confirm q claims) = (confirm-IsConsumed quote env q claims).at
serve-IsConsumed quote env (Request.print job shop) = (print-IsConsumed quote env job shop).at
serve-IsConsumed quote env (Request.dispatch job) = (dispatch-IsConsumed quote env job).at
serve-IsConsumed quote env (Request.report job printer dto) =
    (report-IsConsumed quote env job printer dto).at
serve-IsConsumed quote env (Request.answer job shop dto) =
    (reconcile-IsConsumed quote env job shop dto).at
serve-IsConsumed quote env (Request.reorder job shop ids) =
    (reorder-IsConsumed quote job shop ids).at
serve-IsConsumed quote env (Request.remove_file job shop item) =
    (remove-IsConsumed quote job shop item).at
serve-IsConsumed quote env (Request.change_file job shop item dto) =
    (change-IsConsumed quote job shop item dto).at
serve-IsConsumed quote env (Request.clear shop) = (clear-IsConsumed quote shop).at
serve-IsConsumed quote env (Request.clean_up store) = (sweep-IsConsumed quote store).at
serve-IsConsumed quote env Request.flag_stale = (flag-IsConsumed quote env.now).at

-- Refused before anything is written.
refused :
    (quote : ℕ) (env : Env) (claims : Claims) (db : Db) (q : Quote)
    → find_quote quote db ≡ some q
    → is_some q.consumed_at ≡ true
    → confirm_from_quote env quote claims db
      ≡ (err (if is_holder claims q then already_sent else link_expired), db)
unfolding confirm_from_quote confirm_found ◌>>=◌
refused quote env claims db q e c = elim (Bool-cases (is_holder claims q)) [
  | inl holds' ↦ rw (e, holds', c)
  | inr not' ↦ rw (e, not')
]

-- A quote that was confirmed once is never confirmed again: whatever requests come in between, a
-- later confirmation throws and changes nothing.
pub confirm-once :
    (env : Env) (quote : ℕ) (claims : Claims) (db : Db)
    → has_returned (confirm_from_quote env quote claims db).0 ≡ true
    → (rs : List (Env × Request)) (env' : Env) (claims' : Claims)
    → let later = run rs (confirm_from_quote env quote claims db).1 in
      (e : Error) × (confirm_from_quote env' quote claims' later ≡ (err e, later))
confirm-once env quote claims db ret rs env' claims' =
    let later = run rs (confirm_from_quote env quote claims db).1 in
    let c =
      run-keeps (IsConsumed quote) (serve-IsConsumed quote) rs _
        (confirm-consumes quote env claims db ret) in
    (_, refused quote env' claims' later c.row c.found c.consumed)
