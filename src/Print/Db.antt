-- ===== src/Print/Db.antt =====
-- The tables of printsetu-backend/prisma/schema.prisma that the print and pricing services read and
-- write, the exceptions of printsetu-backend/src/common/exceptions/app.exceptions.ts that they throw,
-- and what a request brings along from outside of the process.
use printsetu.Base.{
  ℕ, Bool, Option, List, Action, by, ◌==◌, find_first, gets, or_throw, throw_if, not, pure, ◌>>=◌,
  ◌>>◌,
}
use printsetu.Print.Types.{
  Text, PrintJobStatus, DocumentStatus, PrinterStatus, NotificationEvent, PricingCombo,
}

pub record Job : Type 0 where
  pub id : ℕ
  pub token_number : ℕ
  pub shop_id : ℕ
  pub printer_id : Option ℕ
  pub quote_id : Option ℕ
  pub amount : ℕ
  pub priced : Bool
  pub status : PrintJobStatus
  pub attempt_count : ℕ
  pub queued_at : Option ℕ
  pub printed_at : Option ℕ
  pub failure_reason : Option Text
  pub status_token : Text
  pub created_at : ℕ
  pub updated_at : ℕ

pub record JobItem : Type 0 where
  pub id : ℕ
  pub job_id : ℕ
  pub document_id : ℕ
  pub combo : PricingCombo
  pub copies : ℕ
  pub page_count : ℕ
  pub billable_pages : ℕ
  pub amount : ℕ
  pub print_order : ℕ
  pub rendered_s3_key : Option Text

pub record JobEvent : Type 0 where
  pub job_id : ℕ
  pub status : PrintJobStatus
  pub agent_attempt_id : Option Text
  pub message : Option Text

pub record Document : Type 0 where
  pub id : ℕ
  pub shop_id : ℕ
  pub session_id : ℕ
  pub s3_key : Text
  pub is_pdf : Bool
  pub page_count : Option ℕ
  pub status : DocumentStatus
  pub deleted_at : Option ℕ

pub record TierSnapshot : Type 0 where
  pub id : ℕ
  pub min_pages : ℕ
  pub max_pages : Option ℕ
  pub price_per_page : ℕ

-- `pricingSnapshot` of a priced line.
pub record PricingSnapshot : Type 0 where
  pub pricing_id : ℕ
  pub price_per_page : ℕ
  pub base_price_per_page : ℕ
  pub effective_from : ℕ
  pub combo_billable_pages : ℕ
  pub tier : Option TierSnapshot

pub record QuoteItem : Type 0 where
  pub document_id : ℕ
  pub combo : PricingCombo
  pub copies : ℕ
  pub page_count : ℕ
  pub billable_pages : ℕ
  pub amount : ℕ
  pub pricing_snapshot : Option PricingSnapshot

-- A quote with its lines and the shop of its session, as `include` returns it.
pub record Quote : Type 0 where
  pub id : ℕ
  pub session_id : ℕ
  pub session_shop_id : ℕ
  pub amount : ℕ
  pub priced : Bool
  pub expires_at : ℕ
  pub consumed_at : Option ℕ
  pub items : List QuoteItem

pub record PrintSettings : Type 0 where
  pub shop_id : ℕ
  pub default_printer_id : Option ℕ
  pub auto_accept_orders : Bool
  pub pricing_enabled : Bool

pub record Printer : Type 0 where
  pub id : ℕ
  pub shop_id : ℕ
  pub status : PrinterStatus

pub record Notification : Type 0 where
  pub shop_id : ℕ
  pub job_id : Option ℕ
  pub event : NotificationEvent

pub record Pricing : Type 0 where
  pub id : ℕ
  pub shop_id : ℕ
  pub combo : PricingCombo
  pub price_per_page : ℕ
  pub effective_from : ℕ
  pub active : Bool

pub record PricingTier : Type 0 where
  pub id : ℕ
  pub shop_id : ℕ
  pub combo : PricingCombo
  pub min_pages : ℕ
  pub max_pages : Option ℕ
  pub price_per_page : ℕ
  pub active : Bool

pub data AuditEntry : Type 0 where
  history_cleared : Option ℕ → ℕ → AuditEntry
  job_reconciled : ℕ → ℕ → Bool → AuditEntry

pub record Db : Type 0 where
  pub jobs : List Job
  pub items : List JobItem
  pub events : List JobEvent
  pub documents : List Document
  pub quotes : List Quote
  pub settings : List PrintSettings
  pub printers : List Printer
  pub notifications : List Notification
  pub pricing : List Pricing
  pub tiers : List PricingTier
  pub dispatch_queue : List ℕ
  pub pushed : List (ℕ × ℕ)
  pub audit : List AuditEntry
  pub next_token : ℕ

pub data Error : Type 0 where
  quote_not_found job_not_found item_not_found agent_job_not_found : Error
  pricing_not_found tier_not_found document_not_found document_deleted : Error
  link_expired : Error
  already_sent took_too_long quote_empty sent_to_printer list_changed only_file : Error
  order_updated not_unknown duplicate_document active_job : Error
  not_offered : PricingCombo → Error
  tier_inverted tier_overlap : Error
  document_unchecked : Error
  job_already_printing : Error
  illegal_transition : PrintJobStatus → PrintJobStatus → Error
  no_printer agent_not_connected : Error
  shop_unavailable subscription_restricted : Error
  unique_violation row_missing : Error

abbrev pub Method : Type 0 → Type 0
Method = Action Error Db

-- `StatusTokenClaims`, the payload of a signed token; `exp` is in seconds.
pub record Claims : Type 0 where
  pub shop_id : ℕ
  pub session_id : Option ℕ
  pub print_job_id : Option ℕ
  pub exp : ℕ

-- The clock, the identifiers that `uuid()` draws, the token's signature, the live sockets, and the
-- answers of the subscription service; and the shop of a session, whose row does not change.
pub record Env : Type 0 where
  pub now : ℕ
  pub uuid : ℕ → ℕ
  pub sign_token : Claims → Text
  pub is_connected : ℕ → Bool
  pub customer_can_order : ℕ → Bool
  pub shop_can_print : ℕ → Bool
  pub session_shop : ℕ → ℕ

abbrev pub job_key : Job → ℕ
job_key j = j.id

abbrev pub has_id : ℕ → Job → Bool
has_id = by job_key

abbrev pub item_of : ℕ → JobItem → Bool
item_of job_id i = i.job_id == job_id

abbrev pub lookup : ℕ → Db → Option Job
lookup job db = find_first (has_id job) db.jobs

-- `findUnique` by the identifier, and the job must be the shop's own.
unfoldable pub find_shop_job : ℕ → ℕ → Method Job
find_shop_job job shop = do
  found ← gets (lookup job)
  j ← or_throw found job_not_found
  throw_if (not (j.shop_id == shop)) job_not_found
  pure j
