-- ===== src/Subscriptions/Ledgers.antt =====
-- The accounts of the invoices, through every call that changes subscriptions.
pub mod Checks
pub mod Calls
use printsetu.Base.{
  ℕ, Bool, true, false, Option, none, some, List, ◌≡◌, refl, by, Result, ok, err, arith, ◌==◌,
  ◌>>=◌, ◌>>◌,
}
use printsetu.Base.Effects.Keeps.{Keeps, Keeps-modify, keeps_rules}
use printsetu.Print.Types.{Text}
use printsetu.Billing.Invoices
use printsetu.Billing.Invoices.{
  Invoice, InvoiceInput, Payment, Ledger, BillingError, invoice_key, find_invoice, is_payable,
  is_unpaid_of, voided, update_invoices, create, mark_paid, find_or_throw, refund,
}
use printsetu.Billing.Accounts.{Agrees, IsAccounted, update-IsAccounted, payable_zero}
use printsetu.Billing.Creation.{create-IsAccounted}
use printsetu.Billing.Payments.{mark_paid-IsAccounted}
use printsetu.Billing.Refunds.{refund-IsAccounted}
use printsetu.Subscriptions.Store.{
  BillingChannel, Subscription, EventType, BillingEvent, Store, lifted, on_ledger, update,
}
use printsetu.Subscriptions.Records.{
  notify, noticed, record_event, recorded, load, plan_of, active_plan, create_invoice,
}
use printsetu.Subscriptions.Manage.{void_unpaid, void_invoices}
use printsetu.Subscriptions.Gateways.{ChargeResult, with_failure, note_failure}
use printsetu.Subscriptions.Collection.{is_open_of, failed, fail_invoices}

abbrev pub HasAccounts : Store → Type 0
HasAccounts db = IsAccounted db.ledger

HasAccounts-lifted :
    {A : Type 0} (db : Store) (r : Result BillingError A × Ledger)
    → IsAccounted r.1
    → HasAccounts (lifted db r).1
HasAccounts-lifted db (ok x, l) h = h
HasAccounts-lifted db (err e, l) h = h

pub HasAccounts-on_ledger :
    {A : Type 0} (m : Invoices.Method A) → Keeps IsAccounted m → Keeps HasAccounts (on_ledger m)
unfolding on_ledger
HasAccounts-on_ledger m k = record {
  at = λ db h. HasAccounts-lifted db (m db.ledger) (k.at db.ledger h);
}

pub HasAccounts-update :
    (shop : ℕ) (f : Subscription → Subscription) → Keeps HasAccounts (update shop f)
unfolding update
HasAccounts-update shop f = search keeps_rules depth 8

pub HasAccounts-notify :
    (shop : ℕ) (event : BillingEvent) (chosen : Option (List BillingChannel))
    → Keeps HasAccounts (notify shop event chosen)
unfolding notify noticed
HasAccounts-notify shop event chosen = search keeps_rules depth 8

pub HasAccounts-record_event :
    (shop : ℕ) (actor : Option ℕ) (kind : EventType)
    → Keeps HasAccounts (record_event shop actor kind)
unfolding record_event recorded
HasAccounts-record_event shop none kind = search keeps_rules depth 8
HasAccounts-record_event shop (some actor) kind = search keeps_rules depth 8

pub HasAccounts-create_invoice :
    (input : ℕ → InvoiceInput) → Keeps HasAccounts (create_invoice input)
unfolding create_invoice
HasAccounts-create_invoice input =
    search (keeps_rules, HasAccounts-on_ledger, create-IsAccounted) depth 14

pub find_or_throw-IsAccounted : (k : ℕ) (o : Option ℕ) → Keeps IsAccounted (find_or_throw k o)
unfolding find_or_throw
find_or_throw-IsAccounted k o = search keeps_rules depth 12

pub HasAccounts-load : (shop : ℕ) → Keeps HasAccounts (load shop)
unfolding load
HasAccounts-load shop = search keeps_rules depth 8

pub HasAccounts-plan_of : (k : ℕ) → Keeps HasAccounts (plan_of k)
unfolding plan_of
HasAccounts-plan_of k = search keeps_rules depth 8

pub HasAccounts-active_plan : (k : ℕ) → Keeps HasAccounts (active_plan k)
unfolding active_plan
HasAccounts-active_plan k = search keeps_rules depth 12

-- An invoice that can be paid had no refund, and has none when it is voided or fails.
pub HasAccounts-void_invoices : (shop : ℕ) → Keeps HasAccounts (void_invoices shop)
unfolding void_invoices Agrees
HasAccounts-void_invoices shop = Keeps-modify _ (λ db a.
    update-IsAccounted (is_unpaid_of shop) voided (λ i. (refl, refl, refl)) db.ledger a
      (λ k i e h. payable_zero i.status i.amount i.refunded_amount (ground arith) (a.agrees k i e)))

open_payable : (shop : ℕ) (i : Invoice) → is_open_of shop i ≡ true → is_payable i.status ≡ true
unfolding is_payable
open_payable shop i h = ground arith

pub HasAccounts-fail_invoices : (shop : ℕ) → Keeps HasAccounts (fail_invoices shop)
unfolding fail_invoices Agrees
HasAccounts-fail_invoices shop = Keeps-modify _ (λ db a.
    update-IsAccounted (is_open_of shop) failed (λ i. (refl, refl, refl)) db.ledger a
      (λ k i e h.
        payable_zero i.status i.amount i.refunded_amount (open_payable shop i h) (a.agrees k i e)))

pub HasAccounts-note_failure :
    (n attempts : ℕ) (r : ChargeResult) (at : Option ℕ)
    → Keeps HasAccounts (note_failure n attempts r at)
unfolding note_failure
HasAccounts-note_failure n attempts r at = Keeps-modify _ (λ db a.
    update-IsAccounted (by invoice_key n) (with_failure attempts r at) (λ i. (refl, refl, refl))
      db.ledger a (λ k i e h. a.agrees k i e))

pub ruleset ledger_rules = (
  keeps_rules, HasAccounts-on_ledger, HasAccounts-update, HasAccounts-notify,
  HasAccounts-record_event, HasAccounts-create_invoice, HasAccounts-load, HasAccounts-plan_of,
  HasAccounts-active_plan, HasAccounts-void_invoices, HasAccounts-fail_invoices,
  HasAccounts-note_failure, mark_paid-IsAccounted, refund-IsAccounted, find_or_throw-IsAccounted,
)
