-- ===== src/Subscriptions/Checks/All.antt =====
-- The check of one shop, and of all, keeps what the writes keep.
use printsetu.Base.{
  ℕ, true, false, some, ◌≡◌, refl, inl, inr, Option-cases, All-find_first, by, ◌>>=◌, ◌>>◌, List,
  length, pure, Bool-cases, branch,
}
use printsetu.Base.Effects.Keeps.{Keeps, Keeps-bind}
use printsetu.Base.Effects.Gives.{Gives, Gives-after, Keeps-given, Keeps-when-if, Keeps-branch-if}
use printsetu.Subscriptions.Store.{
  Subscription, BillingSettings, BillingEvent, Store, shop_key, find_subscription,
}
use printsetu.Subscriptions.Statuses.{is_trial, is_active}
use printsetu.Subscriptions.Overrides.{without_override}
use printsetu.Subscriptions.Reminders.{renewal_reminder, trial_reminder}
use printsetu.Subscriptions.Gateways.{Gateways}
use printsetu.Subscriptions.Automation.{
  on_trial, on_active, check, end_override, process_row, process, process_all, run_checks, run_all,
  set_running,
}
use printsetu.Subscriptions.Rows.{Rows, Rows-record_event, rows_rules}
use printsetu.Subscriptions.Checks.{IsKept, IsOwn}
use printsetu.Subscriptions.Checks.Terms.{not-true, own-Rows, remind-Rows, end_of_term-Rows}
use printsetu.Subscriptions.Checks.Steps.{load-Rows, collect-Rows}

module _ {settings : BillingSettings} {now : ℕ} {Free : ℕ → Type 0} {K : ℕ → Type 0}
    {P : Subscription → Type 0} (kept : IsKept settings now Free P) (gateways : Gateways) where
  module _ (sub : Subscription) (own : IsOwn Free P sub) where
    on_trial-Rows :
        is_trial sub.status ≡ true → Keeps (Rows K P) (on_trial gateways settings now sub)
    unfolding on_trial trial_reminder
    on_trial-Rows trial' =
        Keeps-branch-if _ _ _
          (λ over. end_of_term-Rows kept gateways sub own.1 own.0 (inl (trial', over)) true)
          (λ _.
            Keeps-when-if _ _
              (λ _. remind-Rows {K = K} kept gateways sub own.1 own.0 _ BillingEvent.trial_ending))

    on_active-Rows :
        is_active sub.status ≡ true → Keeps (Rows K P) (on_active gateways settings now sub)
    unfolding on_active renewal_reminder
    on_active-Rows active' =
        Keeps-branch-if _ _ _
          (λ over.
            Keeps-bind _ _
              (end_of_term-Rows kept gateways sub own.1 own.0 (inr (active', over)) false)
              (λ _.
                Keeps-given _ _ (load-Rows kept gateways sub.shop_id own.1)
                  (collect-Rows kept gateways)))
          (λ _. Keeps-when-if _ _ (λ _.
            remind-Rows {K = K} kept gateways sub own.1 own.0 _ BillingEvent.renewal_reminder))

    check-Rows : Keeps (Rows K P) (check gateways settings now sub)
    unfolding check
    check-Rows =
        Keeps-branch-if _ _ _ on_trial-Rows
          (λ _. Keeps-branch-if _ _ _ on_active-Rows (λ _. collect-Rows kept gateways sub own))

    end_override-Rows : Gives (Rows K P) (IsOwn Free P) (end_override sub)
    unfolding end_override
    end_override-Rows =
        let writes =
          own-Rows {K = K} kept gateways sub own.1 own.0 (λ _. without_override) (λ _. refl)
            kept.releases tt in
        Gives-after _ _ writes (λ _.
          Gives-after _ _ (Rows-record_event _ _ _)
            (λ _. load-Rows kept gateways sub.shop_id own.1))

  process_row-Rows :
      (sub : Subscription) → P sub → Keeps (Rows K P) (process_row gateways settings now (some sub))
  unfolding process_row
  process_row-Rows sub p =
      Keeps-branch-if _ _ _
        (λ _. Keeps-when-if _ _ (λ over.
          Keeps-given _ _ (end_override-Rows sub (p, kept.free sub p (inr (not-true _ over))))
            check-Rows))
        (λ unpaused. check-Rows sub (p, kept.free sub p (inl unpaused)))

  -- The check of one shop.
  pub process-Rows : (shop : ℕ) → Keeps (Rows K P) (process gateways settings now shop)
  unfolding process process_row ◌>>=◌
  process-Rows shop = record {
    at = λ db h. elim (Option-cases (find_subscription shop db)) [
      | inl missing ↦ rw missing h
      | inr (sub, e) ↦ rw e (
          (process_row-Rows sub (All-find_first P (by shop_key shop) db.subscriptions sub h.1 e)).at
            db h)
    ];
  }

module _ {now : ℕ} {Free : ℕ → Type 0} {K : ℕ → Type 0} {P : Subscription → Type 0}
    (kept : (settings : BillingSettings) → IsKept settings now Free P) (gateways : Gateways) where
  -- The check of all shops, whatever goes wrong for some of them.
  pub run_all-Rows : Keeps (Rows K P) (run_all gateways now)
  unfolding run_all run_checks process_all
  run_all-Rows =
      let each = λ (settings : BillingSettings). process-Rows {K = K} (kept settings) gateways in
      search rows_rules depth 28

-- The same where the writes keep `P` under the settings that the check reads.
module _ {now : ℕ} {Free : ℕ → Type 0} {K : ℕ → Type 0} {P : Subscription → Type 0}
    (gateways : Gateways) where
  checks-Rows :
      (settings : BillingSettings) (rows : List Subscription)
      → IsKept settings now Free P
      → Keeps
          (Rows K P)
          (process_all gateways settings now rows >> (set_running false >> pure (length rows)))
  unfolding process_all
  checks-Rows settings rows kept =
      let each = process-Rows {K = K} kept gateways in search rows_rules depth 28

  pub run_all-Rows_from :
      (db : Store)
      → IsKept db.settings now Free P
      → Rows K P db
      → Rows K P (run_all gateways now db).1
  unfolding run_all run_checks branch ◌>>=◌
  run_all-Rows_from db kept h = elim (Bool-cases db.running) [
    | inl busy ↦ rw busy h
    | inr free ↦ rw free ((checks-Rows db.settings _ kept).at (record db { running = true }) h)
  ]
