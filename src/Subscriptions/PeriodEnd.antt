-- ===== src/Subscriptions/PeriodEnd.antt =====
-- A subscription that is cancelled for the end of its period, until the periodic check finds the period
-- over.
use printsetu.Base.{
  ℕ, Bool, true, false, inl, inr, some, ◌≡◌, refl, ◌∙◌, ==_iff, leb, leb_iff, map_option,
  find_first-holds, by, ok, ◌>>=◌, branch, transaction,
}
use mathlib.Core.Path.{subst}
use printsetu.Print.Types.{Text}
use printsetu.Subscriptions.Store.{
  SubscriptionStatus, Subscription, BillingSettings, Store, shop_key, find_subscription, updated,
  update,
}
use printsetu.Subscriptions.Statuses.{is_trial, is_active, is_cancelled}
use printsetu.Subscriptions.Gateways.{Gateways}
use printsetu.Subscriptions.Records.{notify, noticed, record_event, recorded, load}
use printsetu.Subscriptions.Manage.{
  CancelDto, with_cancellation_due, ends_later, cancel_rows, cancel,
}
use printsetu.Subscriptions.Renewal.{cancelled_at_end, cancel_at_end, end_of_term}
use printsetu.Subscriptions.Collection.{on_pending, on_grace, on_past_due, collect}
use printsetu.Subscriptions.Automation.{process, process_row, check, on_trial, on_active}
use printsetu.Subscriptions.Reminders.{trial_end}
use printsetu.Subscriptions.Outcomes.{TermIsOver}
use printsetu.Subscriptions.Suspension.{find-updated, load-found}

abbrev pub due : Text → CancelDto
due reason = record { at_period_end = true; reason = reason }

module _ (now k actor : ℕ) (reason : Text) (db : Store) (s : Subscription)
    (found : find_subscription k db ≡ some s) (own : s.shop_id ≡ k) where
  due-found :
      find_subscription k (updated k (with_cancellation_due reason) db)
      ≡ some (with_cancellation_due reason s)
  due-found =
      subst
        (λ n.
          find_subscription k (updated n (with_cancellation_due reason) db)
          ≡ some (with_cancellation_due reason s))
        own (find-updated k (with_cancellation_due reason) db s (λ r. refl) found own)

  cancel-due :
      is_cancelled s.status ≡ false
      → ends_later (due reason) s ≡ true
      → (find_subscription k (cancel now k (due reason) actor db).1
          ≡ some (with_cancellation_due reason s))
        × ((cancel now k (due reason) actor db).1.ledger ≡ db.ledger)
  unfolding cancel cancel_rows load transaction branch update notify noticed record_event recorded
      ◌>>=◌
  cancel-due running later = rw (found, running, later, due-found) (due-found, refl)

module _ (gateways : Gateways) (settings : BillingSettings) (now k : ℕ) (db : Store)
    (s : Subscription) (found : find_subscription k db ≡ some s) (own : s.shop_id ≡ k) where
  ended-found : find_subscription k (cancel_at_end now s db).1 ≡ some (cancelled_at_end now s)
  unfolding cancel_at_end update notify noticed record_event recorded ◌>>=◌
  ended-found = find-updated k (cancelled_at_end now) db s (λ r. refl) found own

  cancel_at_end-returns : (cancel_at_end now s db).0 ≡ ok tt
  unfolding cancel_at_end update notify noticed record_event recorded ◌>>=◌
  cancel_at_end-returns = refl

  cancel_at_end-ledger : (cancel_at_end now s db).1.ledger ≡ db.ledger
  unfolding cancel_at_end update notify noticed record_event recorded ◌>>=◌
  cancel_at_end-ledger = refl

  ended-collect :
      (db' : Store) → collect gateways settings now (cancelled_at_end now s) db' ≡ (ok tt, db')
  unfolding collect on_pending on_grace on_past_due ◌>>=◌
  ended-collect db' = refl

  process-check :
      s.automation_paused ≡ false
      → process gateways settings now k db ≡ check gateways settings now s db
  unfolding process process_row branch ◌>>=◌
  process-check unpaused = rw (found, unpaused) refl

  end_of_term-cancels :
      (from_trial : Bool)
      → s.cancel_at_period_end ≡ true
      → end_of_term gateways settings now from_trial s db ≡ cancel_at_end now s db
  unfolding end_of_term branch
  end_of_term-cancels from_trial ends = rw ends refl

  on_trial-ends :
      is_trial s.status ≡ true
      → s.cancel_at_period_end ≡ true
      → leb (trial_end s) now ≡ true
      → check gateways settings now s db ≡ (ok tt, (cancel_at_end now s db).1)
  unfolding check on_trial branch cancel_at_end update notify record_event ◌>>=◌
  on_trial-ends trial' ends over = rw (trial', over, end_of_term-cancels true ends) refl

  on_active-ends :
      is_trial s.status ≡ false
      → is_active s.status ≡ true
      → s.cancel_at_period_end ≡ true
      → leb s.current_period_end now ≡ true
      → check gateways settings now s db ≡ (ok tt, (cancel_at_end now s db).1)
  unfolding check on_active branch ◌>>=◌
  on_active-ends no_trial active ends over =
      rw
        (
          no_trial,
          active,
          over,
          end_of_term-cancels false ends,
          cancel_at_end-returns,
          load-found now k (cancel_at_end now s db).1 (cancelled_at_end now s) ended-found own,
          ended-collect (cancel_at_end now s db).1,
        )
        refl

  -- A term that is over and is not to be renewed.
  check-ends :
      s.cancel_at_period_end ≡ true
      → TermIsOver now s
      → check gateways settings now s db ≡ (ok tt, (cancel_at_end now s db).1)
  check-ends ends (inl (trial', over)) =
      on_trial-ends (rw trial' refl) ends ((leb_iff (trial_end s) now).1 over)
  check-ends ends (inr (active', over)) =
      on_active-ends (rw active' refl) (rw active' refl) ends
        ((leb_iff s.current_period_end now).1 over)

-- A trial or an active subscription is running, and is to end later when its end is asked for.
runs_on :
    (now : ℕ) (reason : Text) (s : Subscription)
    → TermIsOver now s
    → (is_cancelled s.status ≡ false) × (ends_later (due reason) s ≡ true)
runs_on now reason s (inl (trial', over)) = (rw trial' refl, rw trial' refl)
runs_on now reason s (inr (active', over)) = (rw active' refl, rw active' refl)

-- Where the automation is on for a shop whose subscription is in trial or active and is cancelled for the
-- end of its term, a check once that term is over cancels the subscription and charges nothing: the
-- invoices are those before the cancellation, whatever the gateways would have answered. Whatever else
-- happens to the database between the two is left out.
pub process-cancel :
    (gateways : Gateways) (settings : BillingSettings) (first second k actor : ℕ) (reason : Text)
    (db : Store) (s : Subscription)
    → find_subscription k db ≡ some s
    → s.automation_paused ≡ false
    → TermIsOver second s
    → let after = (process gateways settings second k (cancel first k (due reason) actor db).1).1 in
      (map_option (λ r. r.status) (find_subscription k after) ≡ some SubscriptionStatus.cancelled)
      × (after.ledger ≡ db.ledger)
process-cancel gateways settings first second k actor reason db s found unpaused over =
    let own = (==_iff s.shop_id k).0 (find_first-holds (by shop_key k) db.subscriptions s found) in
    let (running, later) = runs_on second reason s over in
    let r = with_cancellation_due reason s in
    let db' = (cancel first k (due reason) actor db).1 in
    let (found', same) = cancel-due first k actor reason db s found own running later in
    let ends : process gateways settings second k db' ≡ (ok tt, (cancel_at_end second r db').1) =
      process-check gateways settings second k db' r found' own unpaused
      ∙ check-ends gateways settings second k db' r found' own refl over in
    rw ends (
      rw (ended-found gateways settings second k db' r found' own) refl,
      cancel_at_end-ledger gateways settings second k db' r found' own ∙ same,
    )
