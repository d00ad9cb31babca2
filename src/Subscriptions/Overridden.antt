-- ===== src/Subscriptions/Overridden.antt =====
-- Shops that an administrator has taken out of the automation, and shops within their grace period.
use printsetu.Base.{
  ℕ, true, some, ◌≡◌, refl, sym, ◌∙◌, inl, inr, by, ==_iff, find_first-holds, UniqueKeys,
}
use mathlib.Core.Path.{subst}
use printsetu.Subscriptions.Store.{
  Subscription, BillingSettings, Store, shop_key, find_subscription,
}
use printsetu.Subscriptions.Gateways.{Gateways}
use printsetu.Subscriptions.Automation.{is_overridden, run_all}
use printsetu.Subscriptions.Rows.{Rows, Rows-only, Rows-found}
use printsetu.Subscriptions.Checks.{IsKept}
use printsetu.Subscriptions.Checks.All.{run_all-Rows}

module _ (s : Subscription) where
  -- The row of the shop of `s` is `s`.
  abbrev pub IsSame : Subscription → Type 0
  IsSame row = row.shop_id ≡ s.shop_id → row ≡ s

  abbrev IsOther : ℕ → Type 0
  IsOther k = ¬ (k ≡ s.shop_id)

  module _ (now : ℕ) (paused : s.automation_paused ≡ true)
      (ahead : is_overridden now s.paused_until ≡ true) where
    IsSame-IsKept : (settings : BillingSettings) → IsKept settings now IsOther IsSame
    IsSame-IsKept settings = record {
      free = λ sub p free same. elim free [ inl unpaused ↦ cc (p same) | inr over ↦ cc (p same) ];
      releases = λ sub row free p c own q same. absurd (free (sym own ∙ same));
      cancels = λ sub row free p c own q same. absurd (free (sym own ∙ same));
      expires = λ sub row free p c own q same. absurd (free (sym own ∙ same));
      renews = λ r sub row free p c own q same. absurd (free (sym own ∙ same));
      pays = λ r sub row free p c own q same. absurd (free (sym own ∙ same));
      waits = λ r sub row free p c own q same. absurd (free (sym own ∙ same));
      recovers = λ i sub row free p c own q same. absurd (free (sym own ∙ same));
      lapses = λ sub row free p c own q same. absurd (free (sym own ∙ same));
      suspends = λ sub row free p c own q same. absurd (free (sym own ∙ same));
      reminds = λ key sub row free p c own q same. absurd (free (sym own ∙ same));
    }

-- A run of the periodic check leaves the subscription of a shop as it is while an override by an
-- administrator is in force, without an end or with one ahead, where every shop has one subscription at
-- most.
pub run_all-IsSame :
    (gateways : Gateways) (now : ℕ) (db : Store) (k : ℕ) (s : Subscription)
    → UniqueKeys shop_key db.subscriptions
    → find_subscription k db ≡ some s
    → s.automation_paused ≡ true
    → is_overridden now s.paused_until ≡ true
    → find_subscription k (run_all gateways now db).1 ≡ some s
run_all-IsSame gateways now db k s unique before paused ahead =
    let key = (==_iff s.shop_id k).0 (find_first-holds (by shop_key k) db.subscriptions s before) in
    let start = Rows-only (λ r. r ≡ s) db k s before refl unique in
    let kept =
      (run_all-Rows (IsSame-IsKept s now paused ahead) gateways).at db
        (subst (λ n. Rows (λ m. m ≡ k) (λ r. r.shop_id ≡ n → r ≡ s) db) (sym key) start) in
    let (s', e, same) =
      Rows-found (λ r. r ≡ s) (run_all gateways now db).1 k
        (subst (λ n. Rows (λ m. m ≡ k) (λ r. r.shop_id ≡ n → r ≡ s) (run_all gateways now db).1) key
          kept) in
    rw (← same) e
