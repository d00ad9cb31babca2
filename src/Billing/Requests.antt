-- ===== src/Billing/Requests.antt =====
-- Any sequence of the methods of `InvoicesService` that change something.
use printsetu.Base.{ℕ, List, [], ◌∷◌}
use printsetu.Print.Types.{Text}
use printsetu.Billing.Invoices.{
  Ledger, InvoiceInput, Payment, create, mark_paid, void_invoice, refund,
}
use printsetu.Billing.Accounts.{IsAccounted}
use printsetu.Billing.Creation.{create-IsAccounted}
use printsetu.Billing.Payments.{mark_paid-IsAccounted, void_invoice-IsAccounted}
use printsetu.Billing.Refunds.{refund-IsAccounted}

pub data Request : Type 0 where
  bill : InvoiceInput → Request
  pay : ℕ → ℕ → Payment → Request
  cancel : ℕ → Request
  give_back : ℕ → ℕ → Text → Request

-- The state after a call, answered or refused.
unfoldable pub serve : Request → Ledger → Ledger
serve (Request.bill dto) db = (create dto db).1
serve (Request.pay now k p) db = (mark_paid now k p db).1
serve (Request.cancel k) db = (void_invoice k db).1
serve (Request.give_back k value reason) db = (refund k value reason db).1

unfoldable pub run : List Request → Ledger → Ledger
run [] db = db
run (r ∷ rs) db = run rs (serve r db)

serve-IsAccounted : (r : Request) (db : Ledger) → IsAccounted db → IsAccounted (serve r db)
unfolding serve
serve-IsAccounted (Request.bill dto) = (create-IsAccounted dto).at
serve-IsAccounted (Request.pay now k p) = (mark_paid-IsAccounted now k p).at
serve-IsAccounted (Request.cancel k) = (void_invoice-IsAccounted k).at
serve-IsAccounted (Request.give_back k value reason) = (refund-IsAccounted k value reason).at

-- Whatever is billed, paid, voided and refunded, in whichever order: what an invoice counts as refunded
-- is the sum of its refunds and at most its amount; it is REFUNDED where this is all of it,
-- PARTIALLY_REFUNDED where it is a part, and has any other status only where nothing was refunded.
pub run-IsAccounted : (rs : List Request) (db : Ledger) → IsAccounted db → IsAccounted (run rs db)
unfolding run
run-IsAccounted [] db a = a
run-IsAccounted (r ∷ rs) db a = run-IsAccounted rs (serve r db) (serve-IsAccounted r db a)
