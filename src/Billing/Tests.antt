-- ===== src/Billing/Tests.antt =====
-- The accounts of a new ledger after some calls.
use printsetu.Base.{ℕ, ◌+◌, ◌*◌, ◌/◌, ◌%◌, ◌≤◌, ◌≡◌, none, [], ◌∷◌, refl}
use printsetu.Billing.Invoices.{Ledger, InvoiceKind, PaymentMethod}
use printsetu.Billing.Cycles.{BillingCycle, day_ms, month_of, add_months}
use printsetu.Billing.Calendar.{clamped, add_months_lem, add_months-bounds}
use printsetu.Billing.Accounts.{IsAccounted}
use printsetu.Billing.Requests.{Request, run, run-IsAccounted}

abbrev ledger : Ledger
ledger = record { invoices = []; refunds = [] }

ledger-IsAccounted : IsAccounted ledger
ledger-IsAccounted = record {
  unique = tt;
  counted = λ k i h. cc;
  agrees = λ k i h. cc;
  unclaimed = λ k h. refl;
}

run-IsAccounted_example : IsAccounted (
    run
      (Request.bill (record {
        id = 1;
        shop_id = 5;
        plan_id = 2;
        cycle = BillingCycle.monthly;
        kind = InvoiceKind.initial;
        period_start = 70;
        period_end = 2678400070;
        amount = 900;
        due_date = 70;
      })
        ∷ Request.pay 60 1 (record { method = PaymentMethod.upi; reference = none; at = none })
        ∷ Request.give_back 1 400 []
        ∷ Request.give_back 1 500 []
        ∷ [])
      ledger)
run-IsAccounted_example = run-IsAccounted _ ledger ledger-IsAccounted

-- The last day of January 2027, in the morning.
abbrev january : ℕ
january = 20849 * day_ms + 36000000

add_months_lem_example :
    ((month_of (add_months january 1 / day_ms)).month ≡ (month_of (january / day_ms)).month + 1)
    × ((month_of (add_months january 1 / day_ms)).day
        ≡ clamped ((month_of (january / day_ms)).month + 1) (month_of (january / day_ms)).day)
    × (add_months january 1 % day_ms ≡ january % day_ms)
add_months_lem_example = add_months_lem january 1

add_months-bounds_example :
    (january + 28 * day_ms ≤ add_months january 1) × (add_months january 1 ≤ january + 31 * day_ms)
add_months-bounds_example = add_months-bounds january
