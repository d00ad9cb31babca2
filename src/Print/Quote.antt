-- ===== src/Print/Quote.antt =====
-- printsetu-backend/src/print/print-quote.service.ts, `PrintQuoteService.createQuote`: the documents of
-- a request are checked and priced.
pub mod Checked
pub mod Rates
pub mod Priced
use printsetu.Base.{
  ℕ, ◌+◌, ◌*◌, Bool, true, false, not, ◌&&◌, ◌||◌, Option, none, some, List, [], ◌∷◌, ◌++◌, ◌==◌,
  map, map_option, any, includes, holds, is_some, find_first, find_many, if◌then◌else◌, pure, gets,
  modify, throw_if, or_throw, ◌>>=◌, ◌>>◌,
}
use printsetu.Print.Types.{
  PrintJobStatus, DocumentStatus, PricingCombo, status_eq, document_status_eq, combo_eq,
}
use printsetu.Print.Db.{
  Job, JobItem, Document, Quote, QuoteItem, PricingSnapshot, Db, Env, Claims, Method, lookup,
  link_expired, duplicate_document, document_not_found, document_deleted, document_unchecked,
  active_job,
}
use printsetu.Pricing.Service.{ResolvedRate, resolve_rate, is_pricing_enabled}

abbrev pub quote_ttl_seconds : ℕ
quote_ttl_seconds = 15 * 60

-- `QuoteItemDto`
pub record LineInput : Type 0 where
  pub document_id : ℕ
  pub combo : PricingCombo
  pub copies : ℕ

-- A checked line, with the pages it is charged for.
pub record Line : Type 0 where
  pub input : LineInput
  pub page_count : ℕ
  pub billable_pages : ℕ

-- `new Set(documentIds).size !== documentIds.length`
unfoldable pub has_repeats : List ℕ → Bool
has_repeats [] = false
has_repeats (n ∷ ns) = includes ns n || has_repeats ns

-- The document is of the session and the shop that the token was given out for.
abbrev pub is_in_session : Claims → Document → Bool
is_in_session c d = holds c.session_id d.session_id && c.shop_id == d.shop_id

-- `!document.pageCount`: no count yet, or a count of zero.
abbrev pub pages_of : Option ℕ → Option ℕ
pages_of none = none
pages_of (some n) = if n == 0 then none else some n

-- `status: { notIn: ['PRINT_FAILED', 'CANCELLED', 'DELETED'] }`
abbrev pub is_over : PrintJobStatus → Bool
is_over s =
    status_eq s PrintJobStatus.print_failed
    || status_eq s PrintJobStatus.cancelled
    || status_eq s PrintJobStatus.deleted

abbrev pub is_running : Option Job → Bool
is_running none = false
is_running (some j) = not (is_over j.status)

unfoldable pub has_active_job : ℕ → Db → Bool
has_active_job document db =
    any (λ (i : JobItem). i.document_id == document && is_running (lookup i.job_id db)) db.items

-- One round of the loop over the lines of the request.
unfoldable pub check_line : Claims → List Document → LineInput → Method Line
check_line claims documents line = do
  d ←
      or_throw (find_first (λ (d : Document). d.id == line.document_id) documents)
        document_not_found
  throw_if (not (is_in_session claims d)) link_expired
  throw_if (document_status_eq d.status DocumentStatus.deleted) document_deleted
  pages ← or_throw (pages_of d.page_count) document_unchecked
  throw_if (document_status_eq d.status DocumentStatus.analysis_failed) document_unchecked
  active ← gets (has_active_job d.id)
  throw_if active active_job
  pure (record { input = line; page_count = pages; billable_pages = pages * line.copies })

unfoldable pub check_lines : Claims → List Document → List LineInput → Method (List Line)
check_lines claims documents [] = pure []
check_lines claims documents (l ∷ ls) = do
  line ← check_line claims documents l
  lines ← check_lines claims documents ls
  pure (line ∷ lines)

-- `pagesByCombo.set(key, (pagesByCombo.get(key) ?? 0) + billablePages)` for every line
unfoldable pub add_pages : (PricingCombo → ℕ) → List Line → PricingCombo → ℕ
add_pages pages [] = pages
add_pages pages (l ∷ ls) =
    add_pages (λ c. if combo_eq l.input.combo c then pages c + l.billable_pages else pages c) ls

unfoldable pub pages_by_combo : List Line → PricingCombo → ℕ
pages_by_combo lines = add_pages (λ c. 0) lines

-- `rateByCombo`
abbrev pub Rates : Type 0
Rates = PricingCombo → Option ResolvedRate

abbrev pub put_rate : PricingCombo → ResolvedRate → Rates → Rates
put_rate combo rate rates c = if combo_eq combo c then some rate else rates c

-- A combination that has its rate is passed over.
unfoldable pub add_rate :
    ℕ → (PricingCombo → ℕ) → Rates → PricingCombo → Option ResolvedRate → Method Rates
add_rate shop pages rates combo (some r) = pure rates
add_rate shop pages rates combo none = do
  rate ← resolve_rate shop combo (pages combo)
  pure (put_rate combo rate rates)

unfoldable pub add_rates : ℕ → (PricingCombo → ℕ) → Rates → List Line → Method Rates
add_rates shop pages rates [] = pure rates
add_rates shop pages rates (l ∷ ls) = do
  next ← add_rate shop pages rates l.input.combo (rates l.input.combo)
  add_rates shop pages next ls

-- Without pricing no rate is looked up.
unfoldable pub rates_for : Bool → ℕ → List Line → Method Rates
rates_for true shop lines = add_rates shop (pages_by_combo lines) (λ c. none) lines
rates_for false shop lines = pure (λ c. none)

abbrev pub charged : Option ResolvedRate → ℕ → ℕ
charged none pages = 0
charged (some r) pages = r.price_per_page * pages

abbrev pub snapshot_of : ℕ → ResolvedRate → PricingSnapshot
snapshot_of pages r = record {
  pricing_id = r.pricing_id;
  price_per_page = r.price_per_page;
  base_price_per_page = r.base_price_per_page;
  effective_from = r.effective_from;
  combo_billable_pages = pages;
  tier = r.tier;
}

-- The row of one line.
unfoldable pub item_for : (PricingCombo → ℕ) → Rates → Line → QuoteItem
item_for pages rates l = record {
  document_id = l.input.document_id;
  combo = l.input.combo;
  copies = l.input.copies;
  page_count = l.page_count;
  billable_pages = l.billable_pages;
  amount = charged (rates l.input.combo) l.billable_pages;
  pricing_snapshot = map_option (snapshot_of (pages l.input.combo)) (rates l.input.combo);
}

-- `totalAmount += amount`
unfoldable pub add_amounts : ℕ → List QuoteItem → ℕ
add_amounts total [] = total
add_amounts total (i ∷ is) = add_amounts (total + i.amount) is

abbrev pub new_quote : Env → ℕ → Bool → List QuoteItem → Quote
new_quote env session priced items = record {
  id = env.uuid 0;
  session_id = session;
  session_shop_id = env.session_shop session;
  amount = add_amounts 0 items;
  priced = priced;
  expires_at = env.now + quote_ttl_seconds * 1000;
  consumed_at = none;
  items = items;
}

-- Everything before the quote is written.
unfoldable pub make_quote : Env → List LineInput → Claims → Method Quote
make_quote env dto claims = do
  session ← or_throw claims.session_id link_expired
  throw_if (has_repeats (map (λ (l : LineInput). l.document_id) dto)) duplicate_document
  documents ← gets (λ db.
      find_many (λ (d : Document). includes (map (λ (l : LineInput). l.document_id) dto) d.id)
        db.documents)
  lines ← check_lines claims documents dto
  priced ← gets (is_pricing_enabled claims.shop_id)
  rates ← rates_for priced claims.shop_id lines
  pure (new_quote env session priced (map (item_for (pages_by_combo lines) rates) lines))

abbrev pub store_quote : Quote → Db → Db
store_quote q db = record db { quotes = db.quotes ++ (q ∷ []) }

-- `createQuote`
unfoldable pub create_quote : Env → List LineInput → Claims → Method Quote
create_quote env dto claims = do q ← make_quote env dto claims; modify (store_quote q); pure q
