-- ===== src/Billing/Payments.antt =====
-- Voiding and paying invoices keep their accounts.
use printsetu.Base.{
  ℕ, true, some, ◌==◌, ==_iff, by, ◌≡◌, refl, sym, ◌∙◌, inl, inr, Bool-cases, Option-cases, arith,
  find_first-holds, ◌>>=◌,
}
use mathlib.Core.Option.{some-injective}
use mathlib.Core.Path.{subst}
use printsetu.Base.Effects.Keeps.{Keeps, keeps_rules}
use printsetu.Billing.Invoices.{
  Invoice, Ledger, Payment, invoice_key, find_invoice, is_paid, is_payable, with_payment,
  update_invoices, mark_paid, voided, is_voidable, void_invoice,
}
use printsetu.Billing.Accounts.{Agrees, IsAccounted, update-IsAccounted, payable_zero}

pub void_invoice-IsAccounted : (k : ℕ) → Keeps IsAccounted (void_invoice k)
unfolding void_invoice Agrees
void_invoice-IsAccounted k = search (keeps_rules, go) depth 8
  where
    go : (db : Ledger) → IsAccounted db → IsAccounted (update_invoices (is_voidable k) voided db)
    go db a =
        update-IsAccounted (is_voidable k) voided (λ i. (refl, refl, refl)) db a
          (λ n i e h.
            payable_zero i.status i.amount i.refunded_amount (ground arith) (a.agrees n i e))

module _ (db : Ledger) (a : IsAccounted db) (k : ℕ) (i : Invoice)
    (e : find_invoice k db ≡ some i) where
  pub own_key : i.id ≡ k
  own_key = (==_iff i.id k).0 (find_first-holds (by invoice_key k) db.invoices i e)

  -- The row with the key of `i` is `i`.
  pub only_row :
      (n : ℕ) (y : Invoice) → find_invoice n db ≡ some y → (y.id == k) ≡ true → some i ≡ some y
  only_row n y h own =
      let at_n : y.id ≡ n =
        (==_iff y.id n).0 (find_first-holds (by invoice_key n) db.invoices y h) in
      let at_k : y.id ≡ k = (==_iff y.id k).0 own in
      let same : n ≡ k = sym at_n ∙ at_k in sym e ∙ rw same at h

  paid-IsAccounted :
      (now : ℕ) (p : Payment)
      → is_payable i.status ≡ true
      → IsAccounted (update_invoices (by invoice_key k) (with_payment now p) db)
  unfolding Agrees
  paid-IsAccounted now p pay =
      update-IsAccounted (by invoice_key k) (with_payment now p) (λ x. (refl, refl, refl)) db a
        (λ n y h own.
          subst (λ x. x.refunded_amount ≡ 0) (some-injective i y (only_row n y h own))
            (payable_zero i.status i.amount i.refunded_amount pay (a.agrees k i e)))

pub mark_paid-IsAccounted : (now k : ℕ) (p : Payment) → Keeps IsAccounted (mark_paid now k p)
unfolding mark_paid ◌>>=◌
mark_paid-IsAccounted now k p = record {
  at = λ db a. elim (Option-cases (find_invoice k db)) [
    | inl missing ↦ rw missing a
    | inr (i, e) ↦ elim (Bool-cases (is_paid i.status)) [
      | inl done ↦ rw (e, done) a
      | inr open' ↦ elim (Bool-cases (is_payable i.status)) [
        | inl pay ↦ rw (e, open', pay) (paid-IsAccounted db a k i e now p pay)
        | inr closed ↦ rw (e, open', closed) a
      ]
    ]
  ];
}
