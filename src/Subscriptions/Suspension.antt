-- ===== src/Subscriptions/Suspension.antt =====
-- A shop that nobody pays for: its orders stop when the grace period ends, and it is suspended after the
-- days that the settings say.
use printsetu.Base.{
  ℕ, ◌-◌, ◌<◌, ok, Bool-cases, true, false, none, some, leb, ◌≡◌, refl, sym, ◌∙◌, by, ==_iff,
  leb_iff, ◌≤◌, map_option, find_first-holds, find_first-update_many, inl, inr, arith, transaction,
  ◌>>=◌,
}
use mathlib.Core.Path.{subst}
use printsetu.Billing.Cycles.{add_days, days_to_ms}
use printsetu.Subscriptions.Store.{
  SubscriptionStatus, ReminderKey, Subscription, BillingSettings, Store, shop_key,
  find_subscription, updated, update,
}
use printsetu.Subscriptions.Statuses.{is_trial, is_active, is_payment_pending, is_past_due}
use printsetu.Subscriptions.Gateways.{Gateways}
use printsetu.Subscriptions.Records.{notify, noticed, record_event, recorded, load}
use printsetu.Subscriptions.Reminders.{with_sent, final_warning, remind, send_reminder, was_sent}
use printsetu.Subscriptions.Collection.{
  grace_is_over, overdue, to_past_due, fail_invoices, suspended_row, suspend, on_pending, on_grace,
  on_past_due, suspend_at, collect, retry_payment, retry_with,
}
use printsetu.Subscriptions.Automation.{process, process_row, check}

-- Writing the row of a shop that is there.
pub find-updated :
    (k : ℕ) (f : Subscription → Subscription) (db : Store) (s : Subscription)
    → ((r : Subscription) → (f r).shop_id ≡ r.shop_id)
    → find_subscription k db ≡ some s
    → s.shop_id ≡ k
    → find_subscription k (updated s.shop_id f db) ≡ some (f s)
find-updated k f db s keeps e own =
    ground
      (arith, find_first-update_many shop_key (by shop_key s.shop_id) f k db.subscriptions keeps)

-- The shop `k` has a row that is as overdue as `s`.
record IsOverdueAs (s : Subscription) (k : ℕ) (db : Store) : Type 0 where
  row : Subscription
  found : find_subscription k db ≡ some row
  own : row.shop_id ≡ k
  status : row.status ≡ s.status
  since : row.past_due_since ≡ s.past_due_since
  paused : row.automation_paused ≡ s.automation_paused
  gateway : row.gateway ≡ s.gateway

as_is :
    (s : Subscription) (k : ℕ) (db : Store)
    → find_subscription k db ≡ some s
    → s.shop_id ≡ k
    → IsOverdueAs s k db
as_is s k db e own = record {
  row = s;
  found = e;
  own = own;
  status = refl;
  since = refl;
  paused = refl;
  gateway = refl;
}

module _ (now k : ℕ) (db : Store) (s : Subscription) (found : find_subscription k db ≡ some s)
    (own : s.shop_id ≡ k) where
  suspend-found : find_subscription k (suspend s db).1 ≡ some (suspended_row s)
  unfolding suspend update notify noticed record_event recorded ◌>>=◌
  suspend-found = find-updated k suspended_row db s (λ r. refl) found own

  to_past_due-found : find_subscription k (to_past_due now s db).1 ≡ some (overdue now s)
  unfolding to_past_due transaction fail_invoices update notify noticed record_event recorded ◌>>=◌
  to_past_due-found = find-updated k (overdue now) db s (λ r. refl) found own

  to_past_due-returns : (to_past_due now s db).0 ≡ ok tt
  unfolding to_past_due transaction fail_invoices update notify record_event ◌>>=◌
  to_past_due-returns = refl

  pub load-found : load s.shop_id db ≡ (ok s, db)
  unfolding load ◌>>=◌
  load-found =
      let e : find_subscription s.shop_id db ≡ some s =
        subst (λ n. find_subscription n db ≡ some s) (sym own) found in
      rw e refl

module _ (settings : BillingSettings) (now k : ℕ) (db : Store) (s : Subscription)
    (found : find_subscription k db ≡ some s) (own : s.shop_id ≡ k) where
  on_grace-lapses :
      is_payment_pending s.status ≡ true
      → grace_is_over now s.grace_ends_at ≡ true
      → on_grace settings now s db ≡ (ok (overdue now s), (to_past_due now s db).1)
  unfolding on_grace ◌>>=◌
  on_grace-lapses pending over =
      rw (pending, over, to_past_due-returns now k db s found own)
        (load-found now k (to_past_due now s db).1 (overdue now s)
          (to_past_due-found now k db s found own) own)

  on_pending-manual :
      (gateways : Gateways)
      → gateways s.gateway ≡ none
      → on_pending gateways settings now s db ≡ (ok s, db)
  unfolding on_pending retry_payment retry_with ◌>>=◌
  on_pending-manual gateways manual = elim (Bool-cases (is_payment_pending s.status)) [
    | inl yes' ↦ rw (yes', manual) (load-found now k db s found own)
    | inr no' ↦ rw no' refl
  ]

  -- A warning before the suspension leaves the row overdue.
  warned : (at : ℕ) → IsOverdueAs s k (final_warning at now s db).1
  unfolding final_warning remind send_reminder update notify noticed record_event recorded ◌>>=◌
  warned at = elim (Bool-cases (leb (at - now) (days_to_ms 1))) [
    | inr far ↦ rw far (as_is s k db found own)
    | inl near ↦ elim (Bool-cases (was_sent (ReminderKey.final_key at) s)) [
      | inl sent ↦ rw (near, sent) (as_is s k db found own)
      | inr new ↦
          rw (near, new)
            (record {
              row = with_sent s (ReminderKey.final_key at) s;
              found =
                  find-updated k (with_sent s (ReminderKey.final_key at)) db s (λ r. refl) found
                    own;
              own = own;
              status = refl;
              since = refl;
              paused = refl;
              gateway = refl;
            })
    ]
  ]

module _ (gateways : Gateways) (settings : BillingSettings) (k : ℕ) where
  -- A check of a row that is past its term.
  process-collect :
      (now : ℕ) (db : Store) (s : Subscription)
      → find_subscription k db ≡ some s
      → s.automation_paused ≡ false
      → is_trial s.status ≡ false
      → is_active s.status ≡ false
      → process gateways settings now k db ≡ collect gateways settings now s db
  unfolding process process_row check ◌>>=◌
  process-collect now db s found unpaused no_trial no_active =
      rw (found, unpaused, no_trial, no_active) refl

  on_grace-skips :
      (now : ℕ) (db : Store) (s : Subscription)
      → is_payment_pending s.status ≡ false
      → (on_pending gateways settings now s db ≡ (ok s, db))
        × (on_grace settings now s db ≡ (ok s, db))
  unfolding on_pending on_grace ◌>>=◌
  on_grace-skips now db s h = (rw h refl, rw h refl)

  process-suspends :
      (now : ℕ) (db : Store) (s : Subscription)
      → find_subscription k db ≡ some s
      → s.shop_id ≡ k
      → s.automation_paused ≡ false
      → s.status ≡ SubscriptionStatus.past_due
      → leb (suspend_at settings now s) now ≡ true
      → find_subscription k (process gateways settings now k db).1 ≡ some (suspended_row s)
  unfolding collect on_past_due ◌>>=◌
  process-suspends now db s found own unpaused late over =
      let no_pending : is_payment_pending s.status ≡ false = rw late refl in
      let skips = on_grace-skips now db s no_pending in
      let is_late : is_past_due s.status ≡ true = rw late refl in
      rw
        (
          process-collect now db s found unpaused (rw late refl) (rw late refl),
          skips.0,
          skips.1,
          is_late,
          over,
        )
        (suspend-found now k db s found own)

  process-lapses :
      (now : ℕ) (db : Store) (s : Subscription)
      → find_subscription k db ≡ some s
      → s.shop_id ≡ k
      → s.automation_paused ≡ false
      → s.status ≡ SubscriptionStatus.payment_pending
      → grace_is_over now s.grace_ends_at ≡ true
      → gateways s.gateway ≡ none
      → 0 < settings.suspend_after_past_due_days
      → IsOverdueAs (overdue now s) k (process gateways settings now k db).1
  unfolding collect on_past_due ◌>>=◌
  process-lapses now db s found own unpaused pending over manual days =
      let early : leb (suspend_at settings now (overdue now s)) now ≡ false = ground arith in
      rw
        (
          process-collect now db s found unpaused (rw pending refl) (rw pending refl),
          on_pending-manual settings now k db s found own gateways manual,
          on_grace-lapses settings now k db s found own (rw pending refl) over,
          early,
        )
        (warned settings now k (to_past_due now s db).1 (overdue now s)
          (to_past_due-found now k db s found own) own (suspend_at settings now (overdue now s)))

-- A shop whose payment is pending, that no gateway collects from and no administrator has taken out of
-- the automation, is suspended by two checks: one when its grace period is over, and one as many days
-- later as the settings say, which are one at least. Whatever else happens to the database between the
-- two is left out.
pub process-eventually :
    (gateways : Gateways) (settings : BillingSettings) (k first second : ℕ) (db : Store)
    (s : Subscription)
    → find_subscription k db ≡ some s
    → s.automation_paused ≡ false
    → s.status ≡ SubscriptionStatus.payment_pending
    → grace_is_over first s.grace_ends_at ≡ true
    → gateways s.gateway ≡ none
    → 0 < settings.suspend_after_past_due_days
    → add_days first settings.suspend_after_past_due_days ≤ second
    → map_option
        (λ r. r.status)
        (find_subscription k
          (process gateways settings second k (process gateways settings first k db).1).1)
      ≡ some SubscriptionStatus.suspended
process-eventually gateways settings k first second db s found unpaused pending over manual days
      later =
    let own = (==_iff s.shop_id k).0 (find_first-holds (by shop_key k) db.subscriptions s found) in
    let late =
      process-lapses gateways settings k first db s found own unpaused pending over manual days in
    let due : leb (suspend_at settings second late.row) second ≡ true =
      rw late.since ((leb_iff _ second).1 later) in
    rw
      (process-suspends gateways settings k second (process gateways settings first k db).1 late.row
        late.found late.own (late.paused ∙ unpaused) late.status due)
      refl
