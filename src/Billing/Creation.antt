-- ===== src/Billing/Creation.antt =====
-- A new invoice keeps the accounts.
use printsetu.Base.{
  ℕ, false, none, some, List, [], ◌∷◌, ◌==◌, ==_iff, ◌⊎◌, find_first, any, by, ◌≡◌, refl, sym, inl,
  inr, Bool-cases, Option-cases, arith, find_first-append, UniqueKeys-append, ◌>>=◌,
}
use mathlib.Core.Option.{some-injective}
use printsetu.Base.Effects.Keeps.{Keeps}
use printsetu.Billing.Invoices.{
  InvoiceStatus, Invoice, Ledger, InvoiceInput, invoice_key, find_invoice, new_invoice,
  append_invoice, create,
}
use printsetu.Billing.Accounts.{Agrees, IsAccounted}

module _ (i : Invoice) (zero' : i.refunded_amount ≡ 0)
    (unpaid' : i.status ≡ InvoiceStatus.unpaid) where
  fresh :
      (xs : List Invoice)
      → any (by invoice_key i.id) xs ≡ false
      → find_first (by invoice_key i.id) xs ≡ none
  fresh [] h = refl
  fresh (x ∷ xs) h = ground (arith, fresh xs)

  module _ (db : Ledger) (a : IsAccounted db) (new : find_invoice i.id db ≡ none) where
    either :
        (k : ℕ) (x : Invoice)
        → find_invoice k (append_invoice i db) ≡ some x
        → (find_invoice k db ≡ some x) ⊎ ((i.id ≡ k) × (i ≡ x))
    either k x h = elim (Option-cases (find_invoice k db)) [
      | inr (y, e) ↦ inl (ground (arith, find_first-append invoice_key k db.invoices (i ∷ [])))
      | inl missing ↦ elim (Bool-cases (i.id == k)) [
        | inl own ↦
            let same : some i ≡ some x =
              ground (arith, find_first-append invoice_key k db.invoices (i ∷ [])) in
            inr ((==_iff i.id k).0 own, some-injective i x same)
        | inr other' ↦ ground (arith, find_first-append invoice_key k db.invoices (i ∷ []))
      ]
    ]

    append-IsAccounted : IsAccounted (append_invoice i db)
    unfolding Agrees
    append-IsAccounted = record {
      unique = UniqueKeys-append invoice_key db.invoices i a.unique new;
      counted = λ k x h. elim (either k x h) [
        | inl old ↦ a.counted k x old
        | inr (id, is_i) ↦ rw (← is_i, zero', ← id) (sym (a.unclaimed i.id new))
      ];
      agrees = λ k x h. elim (either k x h) [
        | inl old ↦ a.agrees k x old
        | inr (id, is_i) ↦ rw (← is_i, unpaid') zero'
      ];
      unclaimed = λ k h.
          a.unclaimed k (ground (arith, find_first-append invoice_key k db.invoices (i ∷ [])));
    }

pub create-IsAccounted : (dto : InvoiceInput) → Keeps IsAccounted (create dto)
unfolding create ◌>>=◌
create-IsAccounted dto = record {
  at = λ db a. elim (Bool-cases (any (by invoice_key dto.id) db.invoices)) [
    | inl taken ↦ rw taken a
    | inr free ↦
        let i = new_invoice dto in
        rw free (append-IsAccounted i refl refl db a (fresh i refl refl db.invoices free))
  ];
}
