-- ===== src/Billing/Accounts.antt =====
-- The invariant of the invoices: what was refunded, the rows of the refunds, and the status agree.
use printsetu.Base.{
  ℕ, ◌<◌, Bool, true, none, some, List, ◌==◌, sum_of, if◌then◌else◌, map_option, ◌≡◌, inl, inr,
  Bool-cases, Option-cases, arith, UniqueKeys, find_first-update_many, UniqueKeys-update_many,
}
use mathlib.Core.Option.{some-injective}
use printsetu.Billing.Invoices.{
  InvoiceStatus, Invoice, Refund, Ledger, invoice_key, find_invoice, is_payable, update_invoices,
}

-- What the rows of the refunds add up to for one invoice.
abbrev pub refunded_on : ℕ → List Refund → ℕ
refunded_on k rs = sum_of (λ (r : Refund). if r.invoice_id == k then r.amount else 0) rs

-- How the status of an invoice goes with its amount and what was refunded.
unfoldable pub Agrees : InvoiceStatus → ℕ → ℕ → Type 0
Agrees InvoiceStatus.refunded amount back = (back ≡ amount) × (0 < back)
Agrees InvoiceStatus.partially_refunded amount back = (0 < back) × (back < amount)
Agrees _ amount back = back ≡ 0

pub record IsAccounted (db : Ledger) : Type 0 where
  pub unique : UniqueKeys invoice_key db.invoices
  pub counted :
      (k : ℕ) (i : Invoice)
      → find_invoice k db ≡ some i
      → i.refunded_amount ≡ refunded_on k db.refunds
  pub agrees :
      (k : ℕ) (i : Invoice)
      → find_invoice k db ≡ some i
      → Agrees i.status i.amount i.refunded_amount
  pub unclaimed : (k : ℕ) → find_invoice k db ≡ none → refunded_on k db.refunds ≡ 0

-- An update of rows that leaves the amounts alone and is right about the status.
module _ (p : Invoice → Bool) (f : Invoice → Invoice)
    (same : (i : Invoice)
      → ((f i).id ≡ i.id) × ((f i).amount ≡ i.amount) × ((f i).refunded_amount ≡ i.refunded_amount))
    (db : Ledger) (a : IsAccounted db)
    (right : (k : ℕ) (i : Invoice)
      → find_invoice k db ≡ some i
      → p i ≡ true
      → Agrees (f i).status i.amount i.refunded_amount) where
  found :
      (k : ℕ)
      → find_invoice k (update_invoices p f db)
        ≡ map_option (λ i. if p i then f i else i) (find_invoice k db)
  found k = find_first-update_many invoice_key p f k db.invoices (λ i. (same i).0)

  counted_after :
      (k : ℕ) (i : Invoice)
      → find_invoice k (update_invoices p f db) ≡ some i
      → i.refunded_amount ≡ refunded_on k db.refunds
  counted_after k i h = elim (Option-cases (find_invoice k db)) [
    | inl missing ↦ cc (rw (found k, missing) at h)
    | inr (y, e) ↦ ground (arith, found k, same y, a.counted k y e)
  ]

  right_after :
      (k : ℕ) (i : Invoice)
      → find_invoice k (update_invoices p f db) ≡ some i
      → Agrees i.status i.amount i.refunded_amount
  right_after k i h = elim (Option-cases (find_invoice k db)) [
    | inl missing ↦ cc (rw (found k, missing) at h)
    | inr (y, e) ↦ elim (Bool-cases (p y)) [
      | inl yes' ↦
          let eq : some (f y) ≡ some i = rw (found k, e, yes') at h in
          rw (← some-injective _ i eq, (same y).1, (same y).2) (right k y e yes')
      | inr no' ↦
          let eq : some y ≡ some i = rw (found k, e, no') at h in
          rw (← some-injective _ i eq) (a.agrees k y e)
    ]
  ]

  pub update-IsAccounted : IsAccounted (update_invoices p f db)
  update-IsAccounted = record {
    unique = UniqueKeys-update_many invoice_key p f db.invoices (λ i. (same i).0) a.unique;
    counted = counted_after;
    agrees = right_after;
    unclaimed = λ k h. elim (Option-cases (find_invoice k db)) [
      | inl missing ↦ a.unclaimed k missing
      | inr (y, e) ↦ cc (rw (found k, e) at h)
    ];
  }

-- An invoice that can still be paid has had no refund.
pub payable_zero :
    (s : InvoiceStatus) (amount back : ℕ) → is_payable s ≡ true → Agrees s amount back → back ≡ 0
unfolding is_payable Agrees
payable_zero InvoiceStatus.unpaid amount back h a = a
payable_zero InvoiceStatus.failed amount back h a = a
payable_zero InvoiceStatus.paid amount back h a = a
payable_zero InvoiceStatus.void amount back h a = a
payable_zero InvoiceStatus.partially_refunded amount back h a = cc
payable_zero InvoiceStatus.refunded amount back h a = cc
