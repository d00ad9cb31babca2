-- ===== src/Subscriptions/Dates/Paying.antt =====
-- A payment that an administrator records leaves the dates that go with the status.
use printsetu.Base.{
  ℕ, Option, Bool-cases, true, none, some, ◌≡◌, refl, inl, inr, sym, Option-cases, ==_iff, by,
  All-both, All-imp, All-update_to, ◌>>=◌, UniqueKeys-update_many, arith,
}
use mathlib.Core.Path.{subst}
use printsetu.Base.Effects.Keeps.{Keeps}
use printsetu.Base.Effects.Carries.{
  Carries, Carries-bind, Carries-when, Carries-transaction, Carries-then,
}
use printsetu.Print.Types.{Text}
use printsetu.Billing.Invoices.{Invoice}
use printsetu.Subscriptions.Store.{
  SubscriptionStatus, Subscription, Store, Method, shop_key, find_subscription, update,
}
use printsetu.Subscriptions.Statuses.{is_suspended, is_held}
use printsetu.Subscriptions.Records.{load}
use printsetu.Subscriptions.Pay.{
  MarkPaidDto, invoice_to_pay, with_paid_term, settle, mark_paid_by_admin, refund_by_admin,
}
use printsetu.Subscriptions.Rows.{Nobody, Rows, Rows-on_ledger, Rows-only, rows_rules}
use printsetu.Subscriptions.Dates.{Dated, IsDated}

-- The shop's row is still the one that was read.
abbrev IsRead : ℕ → Subscription → Subscription → Type 0
IsRead shop sub r = IsDated r × (r.shop_id ≡ shop → r ≡ sub)

module _ (shop : ℕ) (sub : Subscription) where
  still : (db : Store) → Rows Nobody (IsRead shop sub) db → Rows Nobody IsDated db
  still db (u, h, there) = (u, All-imp (λ r (d, same). d) db.subscriptions h, there)

  held_suspended :
      (s : SubscriptionStatus) → is_suspended s ≡ true → Dated s none none none sub.cancelled_at
  unfolding Dated
  held_suspended SubscriptionStatus.suspended h = tt
  held_suspended _ h = cc

  paid-IsDated : (now : ℕ) (paid : Invoice) → IsDated (with_paid_term now paid sub sub)
  unfolding Dated
  paid-IsDated now paid = elim (Bool-cases (is_held sub)) [
    | inr free ↦ rw free tt
    | inl held ↦ rw held (held_suspended sub.status (ground arith))
  ]

  term-Carries :
      (now : ℕ) (paid : Invoice)
      → Carries
          (Rows Nobody (IsRead shop sub))
          (Rows Nobody IsDated)
          (update shop (with_paid_term now paid sub))
  unfolding update ◌>>=◌
  term-Carries now paid = record {
    at = λ db (u, h, there). (
      UniqueKeys-update_many shop_key (by shop_key shop) (with_paid_term now paid sub)
          db.subscriptions (λ r. refl) u,
      All-update_to (IsRead shop sub) IsDated (by shop_key shop) (with_paid_term now paid sub)
          (λ r own (d, same).
            subst (λ x. IsDated (with_paid_term now paid sub x))
              (sym (same ((==_iff r.shop_id shop).0 own))) (paid-IsDated now paid))
          (λ r other (d, same). d) db.subscriptions h,
      λ k none. cc,
    );
  }

  settle-Carries :
      (now k : ℕ) (dto : MarkPaidDto) (actor : ℕ)
      → Carries
          (Rows Nobody (IsRead shop sub))
          (Rows Nobody IsDated)
          (settle now shop k dto sub actor)
  unfolding settle
  settle-Carries now k dto actor = Carries-bind still _ _ (Rows-on_ledger _) (λ paid.
      Carries-then _ _ (Carries-when still _ _ (λ _. term-Carries now paid))
        (λ _. search rows_rules depth 12))

-- A method that starts with the row of a shop.
read-IsDated :
    {A : Type 0} (shop : ℕ) (next : Subscription → Method A)
    → ((sub : Subscription)
        → Carries (Rows Nobody (IsRead shop sub)) (Rows Nobody IsDated) (next sub))
    → Keeps (Rows Nobody IsDated) (load shop >>= next)
unfolding load ◌>>=◌
read-IsDated shop next rest = record {
  at = λ db (u, h, there). elim (Option-cases (find_subscription shop db)) [
    | inl missing ↦ rw missing (u, h, there)
    | inr (sub, e) ↦
        let only = Rows-only (λ r. r ≡ sub) db shop sub e refl u in
        rw e (
          (rest sub).at db (
            u,
            All-both IsDated (λ r. r.shop_id ≡ shop → r ≡ sub) db.subscriptions h only.1,
            there,
          ))
  ];
}

load-IsDated : (shop : ℕ) → Keeps (Rows Nobody IsDated) (load shop)
unfolding load
load-IsDated shop = search rows_rules depth 8

invoice_to_pay-Rows :
    {P : Subscription → Type 0} (shop : ℕ) (o : Option ℕ)
    → Keeps (Rows Nobody P) (invoice_to_pay shop o)
unfolding invoice_to_pay
invoice_to_pay-Rows shop none = search rows_rules depth 8
invoice_to_pay-Rows shop (some k) = search rows_rules depth 8

pub mark_paid_by_admin-IsDated :
    (now shop : ℕ) (dto : MarkPaidDto) (actor : ℕ)
    → Keeps (Rows Nobody IsDated) (mark_paid_by_admin now shop dto actor)
unfolding mark_paid_by_admin
mark_paid_by_admin-IsDated now shop dto actor = read-IsDated shop _ (λ sub.
    Carries-bind (still shop sub) _ _ (invoice_to_pay-Rows shop dto.invoice_id) (λ invoice.
      Carries-then _ _
        (Carries-transaction (still shop sub) _ (settle-Carries shop sub now invoice.id dto actor))
        (λ held. search (rows_rules, load-IsDated) depth 16)))

pub refund_by_admin-IsDated :
    (shop k value : ℕ) (reason : Text) (actor : ℕ)
    → Keeps (Rows Nobody IsDated) (refund_by_admin shop k value reason actor)
unfolding refund_by_admin
refund_by_admin-IsDated shop k value reason actor = search rows_rules depth 16
