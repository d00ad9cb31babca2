-- ===== src/Print/Jobs/Confirm.antt =====
-- `PrintJobsService.confirmFromQuote`: a customer's quote becomes an order.
use printsetu.Base.{
  ℕ, suc, ◌+◌, ◌*◌, ◌/◌, Bool, true, false, not, ◌&&◌, ◌||◌, Option, none, some, List, [], ◌∷◌,
  ◌++◌, map, ◌==◌, ltb, is_some, holds, find_first, update_many, any, includes, by, pure, gets,
  modify, throw_if, or_throw, branch, catch, transaction, ◌>>=◌, ◌>>◌,
}
use printsetu.Print.Types.{Text, PrintJobStatus, DocumentStatus}
use printsetu.Print.Db.{
  Job, JobItem, JobEvent, Document, Quote, QuoteItem, PrintSettings, Db, Env, Claims, Method,
  quote_not_found, link_expired, already_sent, took_too_long, quote_empty, shop_unavailable,
  unique_violation,
}
use printsetu.Print.Repository.{TransitionOptions, transition}
use printsetu.Print.Jobs.Trigger.{trigger_print, find_settings}

abbrev pub job_status_token_ttl_seconds : ℕ
job_status_token_ttl_seconds = 48 * 60 * 60

abbrev pub find_quote : ℕ → Db → Option Quote
find_quote quote db = find_first (by (λ (q : Quote). q.id) quote) db.quotes

-- The token was given out for the session and the shop of the quote.
unfoldable pub is_holder : Claims → Quote → Bool
is_holder c q = holds c.session_id q.session_id && c.shop_id == q.session_shop_id

abbrev pub has_no_items : List QuoteItem → Bool
has_no_items [] = true
has_no_items (i ∷ is) = false

unfoldable pub text_eq : Text → Text → Bool
text_eq [] [] = true
text_eq (c ∷ s) (d ∷ t) = c == d && text_eq s t
text_eq _ _ = false

abbrev pub status_claims : Env → Quote → Claims
status_claims env q = record {
  shop_id = q.session_shop_id;
  session_id = none;
  print_job_id = some (env.uuid 0);
  exp = env.now / 1000 + job_status_token_ttl_seconds;
}

-- The row of the order, with the defaults of its columns.
abbrev pub new_job : Env → Quote → ℕ → Job
new_job env q token = record {
  id = env.uuid 0;
  token_number = token;
  shop_id = q.session_shop_id;
  printer_id = none;
  quote_id = some q.id;
  amount = q.amount;
  priced = q.priced;
  status = PrintJobStatus.created;
  attempt_count = 0;
  queued_at = none;
  printed_at = none;
  failure_reason = none;
  status_token = env.sign_token (status_claims env q);
  created_at = env.now;
  updated_at = env.now;
}

-- The rows of the documents, numbered in the order of the quote.
unfoldable pub new_items : Env → ℕ → List QuoteItem → List JobItem
new_items env n [] = []
new_items env n (i ∷ is) =
    record {
      id = env.uuid (suc n);
      job_id = env.uuid 0;
      document_id = i.document_id;
      combo = i.combo;
      copies = i.copies;
      page_count = i.page_count;
      billable_pages = i.billable_pages;
      amount = i.amount;
      print_order = n;
      rendered_s3_key = none;
    }
    ∷ new_items env (suc n) is

-- The unique columns: `id`, `quoteId` with `idempotencyKey`, and `statusToken`.
unfoldable pub collides : Job → Job → Bool
collides j x =
    x.id == j.id || same_quote j.quote_id x.quote_id || text_eq x.status_token j.status_token
  where
    same_quote : Option ℕ → Option ℕ → Bool
    same_quote (some a) (some b) = a == b
    same_quote _ _ = false

abbrev pub created_event : Job → JobEvent
created_event j = record {
  job_id = j.id;
  status = PrintJobStatus.created;
  agent_attempt_id = none;
  message = none;
}

abbrev pub insert_job : Job → Db → Db
insert_job j db = record db {
  jobs = db.jobs ++ (j ∷ []);
  events = db.events ++ (created_event j ∷ []);
}

-- `printJob.create` and `printJobEvent.create`
unfoldable pub create_job : Job → Method Job
create_job j = do
  taken ← gets (λ db. any (collides j) db.jobs)
  throw_if taken unique_violation
  modify (insert_job j)
  pure j

-- The other writes of the transaction: the items, the quote, and its documents.
abbrev pub consume : Env → Quote → Db → Db
consume env q db = record db {
  items = db.items ++ new_items env 0 q.items;
  quotes =
      update_many (by (λ (x : Quote). x.id) q.id) (λ x. record x { consumed_at = some env.now })
        db.quotes;
  documents =
      update_many (λ (d : Document). includes (map (λ (i : QuoteItem). i.document_id) q.items) d.id)
        (λ d. record d { status = DocumentStatus.print_eligible }) db.documents;
}

unfoldable pub create_order : Env → Quote → ℕ → Method Job
create_order env q token = do j ← create_job (new_job env q token); modify (consume env q); pure j

-- The sequence of token numbers goes on, also where the transaction is undone.
unfoldable pub draw_token : Method ℕ
draw_token = do
  token ← gets (λ db. db.next_token)
  modify (λ db. record db { next_token = suc token })
  pure token

abbrev pub opening : ℕ → TransitionOptions
opening job = record {
  job_id = job;
  from = PrintJobStatus.created;
  to = PrintJobStatus.print_eligible;
  change = λ j. j;
  agent_attempt_id = none;
  message = none;
}

abbrev pub accepts : Option PrintSettings → Bool
accepts none = false
accepts (some s) = s.auto_accept_orders

unfoldable pub print_now : Env → Job → ℕ → Method PrintJobStatus
print_now env j shop = do printed ← trigger_print env j.id shop; pure printed.status

-- A shop may take orders by itself; where that fails the order waits for the shopkeeper.
unfoldable pub auto_accept : Env → Job → ℕ → Method PrintJobStatus
auto_accept env j shop = do
  settings ← gets (find_settings shop)
  branch (accepts settings) (catch (print_now env j shop) (λ e. pure j.status)) (pure j.status)

-- What the customer is shown.
pub record Confirmation : Type 0 where
  pub job_id : ℕ
  pub token_number : ℕ
  pub status : PrintJobStatus
  pub status_token : Text
  pub amount : ℕ
  pub priced : Bool

abbrev pub confirmation : Job → PrintJobStatus → Confirmation
confirmation j s = record {
  job_id = j.id;
  token_number = j.token_number;
  status = s;
  status_token = j.status_token;
  amount = j.amount;
  priced = j.priced;
}

-- From the checked quote to the order.
unfoldable pub place_order : Env → Quote → Method Confirmation
place_order env q = do
  token ← draw_token
  j ← transaction (create_order env q token)
  eligible ← transition env.now (opening j.id)
  status ← auto_accept env eligible q.session_shop_id
  pure (confirmation eligible status)

-- The guards of the confirmation, and the order.
unfoldable pub confirm_found : Env → Claims → Quote → Method Confirmation
confirm_found env claims q = do
  throw_if (not (is_holder claims q)) link_expired
  throw_if (is_some q.consumed_at) already_sent
  throw_if (ltb q.expires_at env.now) took_too_long
  throw_if (has_no_items q.items) quote_empty
  throw_if (not (env.customer_can_order q.session_shop_id)) shop_unavailable
  place_order env q

-- `confirmFromQuote`
unfoldable pub confirm_from_quote : Env → ℕ → Claims → Method Confirmation
confirm_from_quote env quote claims = do
  found ← gets (find_quote quote)
  q ← or_throw found quote_not_found
  confirm_found env claims q
