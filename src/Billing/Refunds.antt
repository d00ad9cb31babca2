-- ===== src/Billing/Refunds.antt =====
-- A refund keeps the accounts of the invoices.
use printsetu.Base.{
  ℕ, ◌+◌, ◌-◌, ◌<◌, ◌≤◌, true, false, none, some, [], ◌∷◌, ◌==◌, ==_iff, ltb, leb, leb_iff,
  leb-false, ltb-false, ◌⊎◌, ap, sum_of-append, if◌then◌else◌, by, map_option, ◌≡◌, refl, sym, ◌∙◌,
  inl, inr, Bool-cases, Option-cases, arith, find_first-update_many, find_first-holds,
  UniqueKeys-update_many, ◌>>=◌,
}
use mathlib.Core.Option.{some-injective}
use mathlib.Core.Path.{subst}
use printsetu.Base.Effects.Keeps.{Keeps, Keeps-transaction}
use printsetu.Print.Types.{Text}
use printsetu.Billing.Invoices.{
  Invoice, Refund, Ledger, invoice_key, find_invoice, is_refundable, with_refund, add_refund,
  refund_rows, refund,
}
use printsetu.Billing.Payments.{own_key, only_row}
use printsetu.Billing.Accounts.{Agrees, IsAccounted, refunded_on}

module _ (db : Ledger) (a : IsAccounted db) (k : ℕ) (i : Invoice)
    (e : find_invoice k db ≡ some i) where
  module _ (value : ℕ) (reason : Text) (positive : 0 < value)
      (fits : i.refunded_amount + value ≤ i.amount) where
    found_row :
        (n : ℕ)
        → find_invoice n (add_refund i value reason db)
          ≡ map_option
              (λ x. if x.id == i.id then with_refund (i.refunded_amount + value) i.amount x else x)
              (find_invoice n db)
    found_row n =
        find_first-update_many invoice_key (by invoice_key i.id)
          (with_refund (i.refunded_amount + value) i.amount) n db.invoices (λ x. refl)

    total_row :
        (n : ℕ)
        → refunded_on n (add_refund i value reason db).refunds
          ≡ refunded_on n db.refunds + (if i.id == n then value else 0)
    total_row n = omega (
      arith,
      sum_of-append (λ (r : Refund). if r.invoice_id == n then r.amount else 0) db.refunds
          (record { invoice_id = i.id; amount = value; reason = reason } ∷ []),
    )

    abbrev refunded_row : Invoice
    refunded_row = with_refund (i.refunded_amount + value) i.amount i

    abbrev Row : ℕ → Invoice → Type 0
    Row n x =
        (((i.id == n) ≡ true) × (some refunded_row ≡ some x))
        ⊎ (((i.id == n) ≡ false) × (find_invoice n db ≡ some x))

    -- A row after the refund is the refunded invoice, or another one as it was.
    row : (n : ℕ) (x : Invoice) → find_invoice n (add_refund i value reason db) ≡ some x → Row n x
    row n x h = elim (Option-cases (find_invoice n db)) [
      | inl missing ↦ cc (rw (found_row n, missing) at h)
      | inr (y, hy) ↦
          let id : y.id ≡ n =
            (==_iff y.id n).0 (find_first-holds (by invoice_key n) db.invoices y hy) in
          elim (Bool-cases (i.id == n)) [
            | inl own ↦
                let here : (y.id == k) ≡ true =
                  (==_iff y.id k).1 (id ∙ sym ((==_iff i.id n).0 own) ∙ own_key db a k i e) in
                let is_i : y ≡ i = sym (some-injective i y (only_row db a k i e n y hy here)) in
                let eq : (y.id == i.id) ≡ true =
                  (==_iff y.id i.id).1 (id ∙ sym ((==_iff i.id n).0 own)) in
                inl (
                  own,
                  sym (ap (λ z. some (with_refund (i.refunded_amount + value) i.amount z)) is_i)
                      ∙ rw (found_row n, hy, eq) at h,
                )
            | inr differs ↦
                let eq : (y.id == i.id) ≡ false = ground (arith, id) in
                inr (differs, hy ∙ rw (found_row n, hy, eq) at h)
          ]
    ]

    counted_row :
        (n : ℕ) (x : Invoice)
        → find_invoice n (add_refund i value reason db) ≡ some x
        → x.refunded_amount ≡ refunded_on n (add_refund i value reason db).refunds
    counted_row n x h = elim (row n x h) [
      | inl (own, eq) ↦
          let at_n : n ≡ k = sym ((==_iff i.id n).0 own) ∙ own_key db a k i e in
          let before : i.refunded_amount ≡ refunded_on n db.refunds = rw at_n (a.counted k i e) in
          rw (← some-injective refunded_row x eq, total_row n, own, before)
      | inr (differs, old) ↦ rw (total_row n, differs) (omega (arith, a.counted n x old))
    ]

    right_refunded : Agrees refunded_row.status i.amount (i.refunded_amount + value)
    unfolding Agrees
    right_refunded = elim (Bool-cases (leb i.amount (i.refunded_amount + value))) [
      | inl all' ↦
          rw all'
            (omega (arith, (leb_iff i.amount (i.refunded_amount + value)).0 all'), omega arith)
      | inr part ↦
          rw part (omega arith, omega (arith, leb-false i.amount (i.refunded_amount + value) part))
    ]

    right_row :
        (n : ℕ) (x : Invoice)
        → find_invoice n (add_refund i value reason db) ≡ some x
        → Agrees x.status x.amount x.refunded_amount
    right_row n x h = elim (row n x h) [
      | inl (own, eq) ↦
          subst (λ z. Agrees z.status z.amount z.refunded_amount) (some-injective refunded_row x eq)
            right_refunded
      | inr (differs, old) ↦ a.agrees n x old
    ]

    unclaimed_row :
        (n : ℕ)
        → find_invoice n (add_refund i value reason db) ≡ none
        → refunded_on n (add_refund i value reason db).refunds ≡ 0
    unclaimed_row n h = elim (Option-cases (find_invoice n db)) [
      | inr (y, hy) ↦ cc (rw (found_row n, hy) at h)
      | inl missing ↦ elim (Bool-cases (i.id == n)) [
        | inl own ↦
            let at_n : n ≡ k = sym ((==_iff i.id n).0 own) ∙ own_key db a k i e in
            cc (sym (rw at_n at missing) ∙ e)
        | inr differs ↦ rw (total_row n, differs) (omega (arith, a.unclaimed n missing))
      ]
    ]

    add_refund-IsAccounted : IsAccounted (add_refund i value reason db)
    add_refund-IsAccounted = record {
      unique = UniqueKeys-update_many invoice_key _ _ db.invoices (λ x. refl) a.unique;
      counted = counted_row;
      agrees = right_row;
      unclaimed = unclaimed_row;
    }

fits_amount :
    (i : Invoice) (value : ℕ)
    → 0 < value
    → value ≤ i.amount - i.refunded_amount
    → i.refunded_amount + value ≤ i.amount
fits_amount i value positive fits = omega arith

refund_rows-IsAccounted :
    (k value : ℕ) (reason : Text) → Keeps IsAccounted (refund_rows k value reason)
unfolding refund_rows ◌>>=◌
refund_rows-IsAccounted k value reason = record {
  at = λ db a. elim (Option-cases (find_invoice k db)) [
    | inl missing ↦ rw missing a
    | inr (i, e) ↦ elim (Bool-cases (is_refundable i.status)) [
      | inr closed ↦ rw (e, closed) a
      | inl open' ↦ elim (Bool-cases (value == 0)) [
        | inl zero' ↦ rw (e, open', zero') a
        | inr above ↦ elim (Bool-cases (ltb (i.amount - i.refunded_amount) value)) [
          | inl over ↦ rw (e, open', above, over) a
          | inr within' ↦
              let positive : 0 < value = ground arith in
              rw (e, open', above, within')
                (add_refund-IsAccounted db a k i e value reason positive
                  (fits_amount i value positive (ltb-false _ _ within')))
        ]
      ]
    ]
  ];
}

-- A refund keeps the accounts, also where it is refused.
pub refund-IsAccounted : (k value : ℕ) (reason : Text) → Keeps IsAccounted (refund k value reason)
unfolding refund
refund-IsAccounted k value reason = Keeps-transaction _ (refund_rows-IsAccounted k value reason)
