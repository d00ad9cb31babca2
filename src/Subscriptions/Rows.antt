-- ===== src/Subscriptions/Rows.antt =====
-- Invariants of the rows of the subscriptions: which writes leave them alone.
use printsetu.Base.{
  ℕ, refl, true, false, arith, is_some, find_first-update_many, Option, none, some, List, [], ◌∷◌,
  sym, ◌∙◌, UniqueKeys, UniqueKeys-update_many, All-found, ==_iff, by, All, All-find_first,
  All-update_many, Result, ok, err, ◌>>=◌, ◌≡◌, inl, inr, Option-cases, find_first-holds,
}
use mathlib.Core.Path.{subst}
use mathlib.Core.Option.{some-injective}
use printsetu.Base.Effects.Keeps.{
  Keeps, Keeps-modify, Keeps-pure, Keeps-bind, Keeps-gets, keeps_rules,
}
use printsetu.Base.Effects.Gives.{Gives}
use printsetu.Billing.Invoices
use printsetu.Billing.Invoices.{InvoiceInput, Ledger, BillingError}
use printsetu.Subscriptions.Store.{
  BillingChannel, Subscription, EventType, BillingEvent, Store, shop_key, find_subscription,
  updated, update, lifted, on_ledger,
}
use printsetu.Subscriptions.Records.{
  notify, noticed, record_event, recorded, load, plan_of, active_plan, create_invoice,
}

-- For no shop
abbrev pub Nobody : ℕ → Type 0
Nobody k = true ≡ false

-- The shop has a subscription.
abbrev pub IsPresent : Store → ℕ → Type 0
IsPresent db k = is_some (find_subscription k db) ≡ true

-- Every shop has one subscription at most, and every subscription satisfies `P`; the shops of `K` have
-- one.
abbrev pub Rows : (ℕ → Type 0) → (Subscription → Type 0) → Store → Type 0
Rows K P db =
    UniqueKeys shop_key db.subscriptions × All P db.subscriptions × ((k : ℕ) → K k → IsPresent db k)

Rows-lifted :
    {A : Type 0} (K : ℕ → Type 0) (P : Subscription → Type 0) (db : Store)
    (r : Result BillingError A × Ledger)
    → Rows K P db
    → Rows K P (lifted db r).1
Rows-lifted K P db (ok x, l) h = h
Rows-lifted K P db (err e, l) h = h

IsPresent-after :
    (shop : ℕ) (f : Subscription → Subscription) (db : Store) (k : ℕ)
    → ((s : Subscription) → (f s).shop_id ≡ s.shop_id)
    → IsPresent db k
    → IsPresent (updated shop f db) k
IsPresent-after shop f db k key e =
    ground (arith, find_first-update_many shop_key (by shop_key shop) f k db.subscriptions key)

module _ {K : ℕ → Type 0} {P : Subscription → Type 0} where
  pub Rows-update :
      (shop : ℕ) (f : Subscription → Subscription)
      → ((s : Subscription) → (f s).shop_id ≡ s.shop_id)
      → ((s : Subscription) → s.shop_id ≡ shop → P s → P (f s))
      → Keeps (Rows K P) (update shop f)
  unfolding update
  Rows-update shop f key keep = Keeps-modify (updated shop f) (λ db (u, h, there). (
    UniqueKeys-update_many shop_key (by shop_key shop) f db.subscriptions key u,
    All-update_many P (by shop_key shop) f (λ s p own. keep s ((==_iff s.shop_id shop).0 own) p)
        db.subscriptions h,
    λ k here. IsPresent-after shop f db k key (there k here),
  ))

  pub Rows-on_ledger : {A : Type 0} (m : Invoices.Method A) → Keeps (Rows K P) (on_ledger m)
  unfolding on_ledger
  Rows-on_ledger m = record { at = λ db h. Rows-lifted K P db (m db.ledger) h }

  pub Rows-notify :
      (shop : ℕ) (event : BillingEvent) (chosen : Option (List BillingChannel))
      → Keeps (Rows K P) (notify shop event chosen)
  unfolding notify noticed
  Rows-notify shop event chosen = search keeps_rules depth 12

  pub Rows-record_event :
      (shop : ℕ) (actor : Option ℕ) (kind : EventType)
      → Keeps (Rows K P) (record_event shop actor kind)
  unfolding record_event recorded
  Rows-record_event shop none kind = search keeps_rules depth 12
  Rows-record_event shop (some actor) kind = search keeps_rules depth 12

  pub Rows-create_invoice : (input : ℕ → InvoiceInput) → Keeps (Rows K P) (create_invoice input)
  unfolding create_invoice
  Rows-create_invoice input = search (keeps_rules, Rows-on_ledger) depth 14

  pub Rows-load : (shop : ℕ) → Gives (Rows K P) (λ sub. P sub × (sub.shop_id ≡ shop)) (load shop)
  unfolding load ◌>>=◌
  Rows-load shop = record {
    at = λ db h. elim (Option-cases (find_subscription shop db)) [
      | inl missing ↦ rw missing (h, tt)
      | inr (sub, e) ↦ rw e (
        h,
        (
          All-find_first P (by shop_key shop) db.subscriptions sub h.1 e,
          (==_iff sub.shop_id shop).0 (find_first-holds (by shop_key shop) db.subscriptions sub e),
        ),
      )
    ];
  }

  pub Rows-plan_of : (k : ℕ) → Keeps (Rows K P) (plan_of k)
  unfolding plan_of
  Rows-plan_of k = search keeps_rules depth 12

  pub Rows-active_plan : (k : ℕ) → Keeps (Rows K P) (active_plan k)
  unfolding active_plan
  Rows-active_plan k = search keeps_rules depth 12

pub ruleset rows_rules = (
  keeps_rules, Rows-update, Rows-on_ledger, Rows-notify, Rows-record_event, Rows-create_invoice,
  Rows-plan_of, Rows-active_plan,
)

-- Where every shop has one subscription at most, its rows are the one that is found.
module _ (Q : Subscription → Type 0) (db : Store) (k : ℕ) (s : Subscription)
    (found : find_subscription k db ≡ some s) (q : Q s) where
  only_from :
      (xs : List Subscription)
      → All (λ r. find_subscription r.shop_id db ≡ some r) xs
      → All (λ r. r.shop_id ≡ k → Q r) xs
  only_from [] h = tt
  only_from (r ∷ xs) (e, h) = (
    λ own.
        let same : some s ≡ some r =
          sym found ∙ subst (λ n. find_subscription n db ≡ some r) own e in
        subst Q (some-injective s r same) q,
    only_from xs h,
  )

  pub Rows-only :
      UniqueKeys shop_key db.subscriptions → Rows (λ n. n ≡ k) (λ r. r.shop_id ≡ k → Q r) db
  Rows-only unique = (
    unique,
    only_from db.subscriptions (All-found shop_key db.subscriptions unique),
    λ n here. rw here (rw found refl),
  )

-- What every row of a shop satisfies, the one that is there does.
pub Rows-found :
    (Q : Subscription → Type 0) (db : Store) (k : ℕ)
    → Rows (λ n. n ≡ k) (λ r. r.shop_id ≡ k → Q r) db
    → (s : Subscription) × (find_subscription k db ≡ some s) × Q s
Rows-found Q db k (unique, h, there) = elim (Option-cases (find_subscription k db)) [
  | inl missing ↦ cc (rw missing at (there k refl))
  | inr (s, e) ↦ (
    s,
    e,
    All-find_first (λ r. r.shop_id ≡ k → Q r) (by shop_key k) db.subscriptions s h e
        ((==_iff s.shop_id k).0 (find_first-holds (by shop_key k) db.subscriptions s e)),
  )
]
