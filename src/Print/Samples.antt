-- ===== src/Print/Samples.antt =====
-- A small shop with one order, for runs of the print methods.
use printsetu.Base.{
  ℕ, ◌+◌, true, false, none, some, [], ◌∷◌, refl, ◌≡◌, false, inl, inr, arith, ==_iff,
}
use mathlib.Core.Path.{subst}
use mathlib.Core.Option.{some-injective}
use printsetu.Base.{Bool-cases, ◌==◌}
use printsetu.Print.Types.{
  PrintJobStatus, PrinterStatus, DocumentStatus, PricingCombo, PaperSize, ColorMode, SideMode,
}
use printsetu.Print.Quote.{LineInput}
use printsetu.Print.Jobs.Amounts.{IsBalanced}
use printsetu.Print.Db.{
  Job, JobItem, JobEvent, Document, Quote, QuoteItem, Claims, Printer, Db, Env, lookup,
}
use printsetu.Print.History.{Trace, IsSound, history}
use printsetu.Print.StateMachine.{can_transition}

abbrev pub env : Env
env = record {
  now = 1000;
  uuid = λ n. 90 + n;
  sign_token = λ c. [];
  is_connected = λ p. true;
  customer_can_order = λ s. true;
  shop_can_print = λ s. true;
  session_shop = λ s. 5;
}

abbrev pub job_in : PrintJobStatus → Job
job_in s = record {
  id = 7;
  token_number = 1;
  shop_id = 5;
  printer_id = some 3;
  quote_id = some 4;
  amount = 400;
  priced = true;
  status = s;
  attempt_count = 1;
  queued_at = some 900;
  printed_at = none;
  failure_reason = none;
  status_token = [];
  created_at = 800;
  updated_at = 900;
}

abbrev event : PrintJobStatus → JobEvent
event s = record { job_id = 7; status = s; agent_attempt_id = none; message = none }

abbrev printer : Printer
printer = record { id = 3; shop_id = 5; status = PrinterStatus.online }

-- The shop, with the order in the queue.
abbrev pub shop : Db
shop = record {
  jobs = job_in PrintJobStatus.queued ∷ [];
  items = [];
  events =
      event PrintJobStatus.created
      ∷ event PrintJobStatus.print_eligible
      ∷ event PrintJobStatus.queued
      ∷ [];
  documents = [];
  quotes = [];
  settings = [];
  printers = printer ∷ [];
  notifications = [];
  pricing = [];
  tiers = [];
  dispatch_queue = 7 ∷ [];
  pushed = [];
  audit = [];
  next_token = 2;
}

life :
    Trace
      (PrintJobStatus.created ∷ PrintJobStatus.print_eligible ∷ PrintJobStatus.queued ∷ [])
      PrintJobStatus.queued
unfolding can_transition
life =
    Trace.step PrintJobStatus.queued (Trace.step PrintJobStatus.print_eligible Trace.start refl)
      refl

events_of_others : (k : ℕ) → (7 == k) ≡ false → history k shop.events ≡ []
unfolding history
events_of_others k ne = ground arith

traced_seven :
    (j : Job)
    → some (job_in PrintJobStatus.queued) ≡ some j
    → Trace (history 7 shop.events) j.status
unfolding history
traced_seven j h = subst (λ x. Trace (history 7 shop.events) x.status) (some-injective _ j h) life

pub shop-IsSound : IsSound shop
shop-IsSound = record {
  unique = (refl, tt);
  traced = λ k j h. elim (Bool-cases (7 == k)) [
    | inl same ↦
        subst (λ i. lookup i shop ≡ some j → Trace (history i shop.events) j.status)
          ((==_iff 7 k).0 same) (traced_seven j) h
    | inr other ↦ cc (rw other at h)
  ];
  untracked = λ k h. elim (Bool-cases (7 == k)) [
    | inl same ↦ cc (rw same at h)
    | inr other ↦ events_of_others k other
  ];
}

abbrev a4 : PricingCombo
a4 = record { paper_size = PaperSize.a4; color_mode = ColorMode.bw; side_mode = SideMode.simplex }

abbrev pub document : Document
document = record {
  id = 6;
  shop_id = 5;
  session_id = 2;
  s3_key = [];
  is_pdf = true;
  page_count = some 3;
  status = DocumentStatus.processed;
  deleted_at = none;
}

abbrev pub line : LineInput
line = record { document_id = 6; combo = a4; copies = 2 }

abbrev quote_item : QuoteItem
quote_item = record {
  document_id = 6;
  combo = a4;
  copies = 2;
  page_count = 3;
  billable_pages = 6;
  amount = 0;
  pricing_snapshot = none;
}

abbrev quote : Quote
quote = record {
  id = 8;
  session_id = 2;
  session_shop_id = 5;
  amount = 0;
  priced = false;
  expires_at = 5000;
  consumed_at = none;
  items = quote_item ∷ [];
}

abbrev pub holder : Claims
holder = record { shop_id = 5; session_id = some 2; print_job_id = none; exp = 9 }

-- A shop without orders, where a document waits and is quoted.
abbrev pub counter : Db
counter = record shop {
  jobs = [];
  events = [];
  documents = document ∷ [];
  quotes = quote ∷ [];
  dispatch_queue = [];
}

abbrev item : ℕ → ℕ → JobItem
item id amount = record {
  id = id;
  job_id = 7;
  document_id = 6;
  combo = a4;
  copies = 1;
  page_count = 1;
  billable_pages = 1;
  amount = amount;
  print_order = 0;
  rendered_s3_key = none;
}

-- The shop with an order of two files that waits for the shopkeeper.
abbrev pub desk : Db
desk = record shop {
  jobs = job_in PrintJobStatus.print_eligible ∷ [];
  items = item 11 150 ∷ item 12 250 ∷ [];
  documents = document ∷ [];
}

pub desk-IsBalanced : IsBalanced 7 desk
desk-IsBalanced j e = rw (← some-injective _ j e)
