-- ===== src/Billing/Invoices.antt =====
-- printsetu-backend/src/subscriptions/invoices.service.ts: invoices, their payment, and refunds. Amounts
-- are whole hundredths, so that `round2` has nothing to round; a refund below zero is refused as zero is.
use printsetu.Base.{
  ℕ, ◌+◌, ◌-◌, Bool, true, false, not, ◌&&◌, Option, none, some, List, [], ◌∷◌, ◌++◌, ◌==◌, ltb,
  leb, any, by, if◌then◌else◌, find_first, update_many, get_or, Action, pure, gets, modify,
  throw_if, or_throw, transaction, ◌>>=◌, ◌>>◌,
}
use printsetu.Print.Types.{Text}
use printsetu.Billing.Cycles.{BillingCycle}

-- `unpaid` stands for OPEN.
pub data InvoiceStatus : Type 0 where
  unpaid paid failed void partially_refunded refunded : InvoiceStatus

pub data InvoiceKind : Type 0 where
  initial renewal upgrade : InvoiceKind

pub data PaymentMethod : Type 0 where
  cash bank_transfer upi card gateway other : PaymentMethod

-- The columns of an invoice that these methods read or write.
pub record Invoice : Type 0 where
  pub id : ℕ
  pub shop_id : ℕ
  pub plan_id : ℕ
  pub cycle : BillingCycle
  pub kind : InvoiceKind
  pub period_start : ℕ
  pub period_end : ℕ
  pub amount : ℕ
  pub due_date : ℕ
  pub status : InvoiceStatus
  pub paid_at : Option ℕ
  pub payment_method : Option PaymentMethod
  pub payment_reference : Option Text
  pub attempt_count : ℕ
  pub last_failure : Option Text
  pub next_retry_at : Option ℕ
  pub refunded_amount : ℕ

pub record Refund : Type 0 where
  pub invoice_id : ℕ
  pub amount : ℕ
  pub reason : Text

pub record Ledger : Type 0 where
  pub invoices : List Invoice
  pub refunds : List Refund

pub data BillingError : Type 0 where
  invoice_not_found already_paid not_payable not_refundable not_above_zero too_much id_taken :
      BillingError

abbrev pub Method : Type 0 → Type 0
Method = Action BillingError Ledger

abbrev pub invoice_key : Invoice → ℕ
invoice_key i = i.id

abbrev pub find_invoice : ℕ → Ledger → Option Invoice
find_invoice k db = find_first (by invoice_key k) db.invoices

-- `CreateInvoiceInput`, less the texts, with the identifier that the row gets
pub record InvoiceInput : Type 0 where
  pub id : ℕ
  pub shop_id : ℕ
  pub plan_id : ℕ
  pub cycle : BillingCycle
  pub kind : InvoiceKind
  pub period_start : ℕ
  pub period_end : ℕ
  pub amount : ℕ
  pub due_date : ℕ

abbrev pub new_invoice : InvoiceInput → Invoice
new_invoice dto = record {
  id = dto.id;
  shop_id = dto.shop_id;
  plan_id = dto.plan_id;
  cycle = dto.cycle;
  kind = dto.kind;
  period_start = dto.period_start;
  period_end = dto.period_end;
  amount = dto.amount;
  due_date = dto.due_date;
  status = InvoiceStatus.unpaid;
  paid_at = none;
  payment_method = none;
  payment_reference = none;
  attempt_count = 0;
  last_failure = none;
  next_retry_at = none;
  refunded_amount = 0;
}

abbrev pub append_invoice : Invoice → Ledger → Ledger
append_invoice i db = record db { invoices = db.invoices ++ (i ∷ []) }

-- `create`
unfoldable pub create : InvoiceInput → Method Invoice
create dto = do
  taken ← gets (λ db. any (by invoice_key dto.id) db.invoices)
  throw_if taken id_taken
  modify (append_invoice (new_invoice dto))
  pure (new_invoice dto)

abbrev pub is_paid : InvoiceStatus → Bool
is_paid InvoiceStatus.paid = true
is_paid _ = false

-- `status: { in: ['OPEN', 'FAILED'] }`
unfoldable pub is_payable : InvoiceStatus → Bool
is_payable InvoiceStatus.unpaid = true
is_payable InvoiceStatus.failed = true
is_payable _ = false

pub record Payment : Type 0 where
  pub method : PaymentMethod
  pub reference : Option Text
  pub at : Option ℕ

abbrev pub with_payment : ℕ → Payment → Invoice → Invoice
with_payment now p i = record i {
  status = InvoiceStatus.paid;
  paid_at = some (get_or p.at now);
  payment_method = some p.method;
  payment_reference = p.reference;
  next_retry_at = none;
}

abbrev pub update_invoices : (Invoice → Bool) → (Invoice → Invoice) → Ledger → Ledger
update_invoices p f db = record db { invoices = update_many p f db.invoices }

-- `markPaid`
unfoldable pub mark_paid : ℕ → ℕ → Payment → Method Invoice
mark_paid now k p = do
  found ← gets (find_invoice k)
  i ← or_throw found invoice_not_found
  throw_if (is_paid i.status) already_paid
  throw_if (not (is_payable i.status)) not_payable
  modify (update_invoices (by invoice_key k) (with_payment now p))
  pure (with_payment now p i)

-- The shop of an invoice is checked where one is given.
abbrev is_of_other : Option ℕ → Invoice → Bool
is_of_other none i = false
is_of_other (some shop) i = not (i.shop_id == shop)

-- `findOrThrow`
unfoldable pub find_or_throw : ℕ → Option ℕ → Method Invoice
find_or_throw k shop = do
  found ← gets (find_invoice k)
  i ← or_throw found invoice_not_found
  throw_if (is_of_other shop i) invoice_not_found
  pure i

abbrev pub is_unpaid_of : ℕ → Invoice → Bool
is_unpaid_of shop i = (i.shop_id == shop) && is_payable i.status

-- `oldestUnpaid`
unfoldable pub oldest_unpaid : ℕ → Ledger → Option Invoice
oldest_unpaid shop db = find_first (is_unpaid_of shop) db.invoices

abbrev pub voided : Invoice → Invoice
voided i = record i { status = InvoiceStatus.void; next_retry_at = none }

abbrev pub is_voidable : ℕ → Invoice → Bool
is_voidable k i = by invoice_key k i && is_payable i.status

-- `voidInvoice`
unfoldable pub void_invoice : ℕ → Method (Unit {0})
void_invoice k = modify (update_invoices (is_voidable k) voided)

-- A paid invoice that has not been refunded in full.
unfoldable pub is_refundable : InvoiceStatus → Bool
is_refundable InvoiceStatus.paid = true
is_refundable InvoiceStatus.partially_refunded = true
is_refundable _ = false

abbrev pub with_refund : ℕ → ℕ → Invoice → Invoice
with_refund total amount i = record i {
  refunded_amount = total;
  status = if leb amount total then InvoiceStatus.refunded else InvoiceStatus.partially_refunded;
}

-- The refund's row, and the invoice's new total.
abbrev pub add_refund : Invoice → ℕ → Text → Ledger → Ledger
add_refund i value reason db = record {
  invoices =
      update_many (by invoice_key i.id) (with_refund (i.refunded_amount + value) i.amount)
        db.invoices;
  refunds = db.refunds ++ (record { invoice_id = i.id; amount = value; reason = reason } ∷ []);
}

-- Where more was refunded than charged the subtraction is negative in the source, and zero here; either
-- way no refund above zero is allowed.
unfoldable pub refund_rows : ℕ → ℕ → Text → Method (Unit {0})
refund_rows k value reason = do
  found ← gets (find_invoice k)
  i ← or_throw found invoice_not_found
  throw_if (not (is_refundable i.status)) not_refundable
  throw_if (value == 0) not_above_zero
  throw_if (ltb (i.amount - i.refunded_amount) value) too_much
  modify (add_refund i value reason)

-- `refund`
unfoldable pub refund : ℕ → ℕ → Text → Method (Unit {0})
refund k value reason = transaction (refund_rows k value reason)
