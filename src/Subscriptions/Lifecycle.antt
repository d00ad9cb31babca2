-- ===== src/Subscriptions/Lifecycle.antt =====
-- What a run of the periodic check makes of the subscription of a shop.
use printsetu.Base.{
  ℕ, Option, true, none, some, leb, leb_iff, UniqueKeys, ◌≡◌, refl, sym, ◌∙◌, inl, inr, arith,
}
use mathlib.Core.Path.{subst}
use printsetu.Billing.Cycles.{add_days}
use printsetu.Billing.Calendar.{add_cycle-later}
use printsetu.Billing.Invoices.{Invoice}
use printsetu.Subscriptions.Store.{
  SubscriptionStatus, ReminderKey, Subscription, BillingSettings, Store, shop_key,
  find_subscription,
}
use printsetu.Subscriptions.Statuses.{is_trial, is_active, is_payment_pending, is_past_due}
use printsetu.Subscriptions.Gateways.{Gateways}
use printsetu.Subscriptions.Reminders.{trial_end, with_sent}
use printsetu.Subscriptions.Overrides.{without_override}
use printsetu.Subscriptions.Collection.{grace_is_over, suspend_at, with_recovery}
use printsetu.Subscriptions.Automation.{run_all}
use printsetu.Subscriptions.Outcomes.{
  NotAhead, TermIsOver, HasLapsed, IsDueToStop, IsAsBefore, Outcome,
}
use printsetu.Subscriptions.Rows.{Rows-only, Rows-found}
use printsetu.Subscriptions.Checks.{IsEnded, IsToRenew, IsKept}
use printsetu.Subscriptions.Checks.All.{run_all-Rows_from}

is_trial-eq : (s : SubscriptionStatus) → is_trial s ≡ true → s ≡ SubscriptionStatus.trial
is_trial-eq SubscriptionStatus.trial h = refl
is_trial-eq _ h = cc

is_active-eq : (s : SubscriptionStatus) → is_active s ≡ true → s ≡ SubscriptionStatus.active
is_active-eq SubscriptionStatus.active h = refl
is_active-eq _ h = cc

is_payment_pending-eq :
    (s : SubscriptionStatus) → is_payment_pending s ≡ true → s ≡ SubscriptionStatus.payment_pending
is_payment_pending-eq SubscriptionStatus.payment_pending h = refl
is_payment_pending-eq _ h = cc

is_past_due-eq : (s : SubscriptionStatus) → is_past_due s ≡ true → s ≡ SubscriptionStatus.past_due
is_past_due-eq SubscriptionStatus.past_due h = refl
is_past_due-eq _ h = cc

own_term : (now : ℕ) (s sub : Subscription) → IsAsBefore s sub → IsEnded now sub → TermIsOver now s
own_term now s sub a (inl (h, over)) = inl (
  sym a.status ∙ is_trial-eq sub.status h,
  rw (← a.trial, ← a.period) ((leb_iff (trial_end sub) now).0 over),
)
own_term now s sub a (inr (h, over)) = inr (
  sym a.status ∙ is_active-eq sub.status h,
  rw (← a.period) ((leb_iff sub.current_period_end now).0 over),
)

not_ahead : (now : ℕ) (o : Option ℕ) → grace_is_over now o ≡ true → NotAhead now o
not_ahead now none h = tt
not_ahead now (some t) h = (leb_iff t now).0 h

module _ {settings : BillingSettings} {now : ℕ} {s : Subscription} where
  -- Only those dates matter.
  Outcome-as :
      (row row' : Subscription)
      → IsAsBefore row row'
      → Outcome settings now s row
      → Outcome settings now s row'
  Outcome-as row row' a (Outcome.stays b) = Outcome.stays (record {
    status = a.status ∙ b.status;
    trial = a.trial ∙ b.trial;
    period = a.period ∙ b.period;
    grace = a.grace ∙ b.grace;
    since = a.since ∙ b.since;
  })
  Outcome-as row row' a (Outcome.renews o f e) = Outcome.renews o f (a.status ∙ e)
  Outcome-as row row' a (Outcome.expires o f e) = Outcome.expires o f (a.status ∙ e)
  Outcome-as row row' a (Outcome.ends o f e) = Outcome.ends o f (a.status ∙ e)
  Outcome-as row row' a (Outcome.waits o f e g) = Outcome.waits o f (a.status ∙ e) (a.grace ∙ g)
  Outcome-as row row' a (Outcome.recovers p e ahead) =
      Outcome.recovers p (a.status ∙ e) (rw a.period ahead)
  Outcome-as row row' a (Outcome.lapses o e g) = Outcome.lapses o (a.status ∙ e) (a.since ∙ g)
  Outcome-as row row' a (Outcome.suspends o e) = Outcome.suspends o (a.status ∙ e)

  -- A row whose term is over comes from one whose term is.
  ended : (sub : Subscription) → Outcome settings now s sub → IsEnded now sub → TermIsOver now s
  ended sub (Outcome.stays a) c = own_term now s sub a c
  ended sub (Outcome.renews o f e) c = o
  ended sub (Outcome.expires o f e) c = o
  ended sub (Outcome.ends o f e) c = o
  ended sub (Outcome.waits o f e g) c = o
  ended sub (Outcome.recovers p e ahead) (inl (h, over)) = cc (rw e at h)
  ended sub (Outcome.recovers p e ahead) (inr (h, over)) = cc
  ended sub (Outcome.lapses o e g) (inl (h, over)) = cc (rw e at h)
  ended sub (Outcome.lapses o e g) (inr (h, over)) = cc (rw e at h)
  ended sub (Outcome.suspends o e) (inl (h, over)) = cc (rw e at h)
  ended sub (Outcome.suspends o e) (inr (h, over)) = cc (rw e at h)

  -- A pending payment that has lapsed.
  lapsed :
      (sub : Subscription)
      → Outcome settings now s sub
      → is_payment_pending sub.status ≡ true
      → grace_is_over now sub.grace_ends_at ≡ true
      → HasLapsed settings now s
  lapsed sub (Outcome.stays a) p over = inl (
    sym a.status ∙ is_payment_pending-eq sub.status p,
    subst (NotAhead now) a.grace (not_ahead now sub.grace_ends_at over),
  )
  lapsed sub (Outcome.renews o f e) p over = cc (rw e at p)
  lapsed sub (Outcome.expires o f e) p over = cc (rw e at p)
  lapsed sub (Outcome.ends o f e) p over = cc (rw e at p)
  lapsed sub (Outcome.waits o f e g) p over =
      let late = (leb_iff (add_days now settings.grace_days) now).0 (rw g at over) in
      inr (o, omega arith)
  lapsed sub (Outcome.recovers q e ahead) p over = cc (rw e at p)
  lapsed sub (Outcome.lapses o e g) p over = cc (rw e at p)
  lapsed sub (Outcome.suspends o e) p over = cc (rw e at p)

  -- An overdue one whose days are over.
  stopped :
      (sub : Subscription)
      → Outcome settings now s sub
      → is_past_due sub.status ≡ true
      → leb (suspend_at settings now sub) now ≡ true
      → IsDueToStop settings now s
  stopped sub (Outcome.stays a) p over = inl (
    sym a.status ∙ is_past_due-eq sub.status p,
    rw (← a.since) ((leb_iff (suspend_at settings now sub) now).0 over),
  )
  stopped sub (Outcome.renews o f e) p over = cc (rw e at p)
  stopped sub (Outcome.expires o f e) p over = cc (rw e at p)
  stopped sub (Outcome.ends o f e) p over = cc (rw e at p)
  stopped sub (Outcome.waits o f e g) p over = cc (rw e at p)
  stopped sub (Outcome.recovers q e ahead) p over = cc (rw e at p)
  stopped sub (Outcome.lapses o e g) p over =
      let late =
        (leb_iff (add_days now settings.suspend_after_past_due_days) now).0 (rw g at over) in
      inr (o, omega arith)
  stopped sub (Outcome.suspends o e) p over = cc (rw e at p)

  -- The payment of a row that waits for it.
  recovered :
      (sub row : Subscription) (i : Invoice)
      → Outcome settings now s sub
      → is_payment_pending sub.status ≡ true
      → Outcome settings now s (with_recovery now i row)
  recovered sub row i (Outcome.stays a) p =
      Outcome.recovers (sym a.status ∙ is_payment_pending-eq sub.status p) refl
        (ground (arith, add_cycle-later now i.cycle))
  recovered sub row i (Outcome.renews o f e) p = cc (rw e at p)
  recovered sub row i (Outcome.expires o f e) p = cc (rw e at p)
  recovered sub row i (Outcome.ends o f e) p = cc (rw e at p)
  recovered sub row i (Outcome.waits o f e g) p = Outcome.renews o f refl
  recovered sub row i (Outcome.recovers q e ahead) p = cc (rw e at p)
  recovered sub row i (Outcome.lapses o e g) p = cc (rw e at p)
  recovered sub row i (Outcome.suspends o e) p = cc (rw e at p)

same_dates : (s : Subscription) → IsAsBefore s s
same_dates s = record { status = refl; trial = refl; period = refl; grace = refl; since = refl }

released_dates : (s : Subscription) → IsAsBefore s (without_override s)
released_dates s = record { status = refl; trial = refl; period = refl; grace = refl; since = refl }

reminded_dates : (sub s : Subscription) (key : ReminderKey) → IsAsBefore s (with_sent sub key s)
reminded_dates sub s key = record {
  status = refl;
  trial = refl;
  period = refl;
  grace = refl;
  since = refl;
}

-- What the check takes as it was asked for: whether to renew, and whether to end.
record IsAsAsked (s row : Subscription) : Type 0 where
  renewal : row.auto_renew ≡ s.auto_renew
  ending : row.cancel_at_period_end ≡ true → s.cancel_at_period_end ≡ true

module _ (settings : BillingSettings) (now k : ℕ) (s : Subscription) where
  abbrev IsChecked : Subscription → Type 0
  IsChecked row = IsAsAsked s row × Outcome settings now s row

  -- A write that leaves the switches alone.
  abbrev AsAsked : (row row' : Subscription) → Type 0
  AsAsked row row' =
      (row'.auto_renew ≡ row.auto_renew) × (row'.cancel_at_period_end ≡ row.cancel_at_period_end)

  still : (row row' : Subscription) → AsAsked row row' → IsAsAsked s row → IsAsAsked s row'
  still row row' (r, e) a = record { renewal = r ∙ a.renewal; ending = λ c. a.ending (sym e ∙ c) }

  renewing :
      (sub : Subscription)
      → IsChecked sub
      → IsToRenew now sub
      → TermIsOver now s × (s.auto_renew ≡ true)
  renewing sub (a, o) (c, on) = (ended sub o c, sym a.renewal ∙ on)

  Outcome-IsKept : IsKept settings now (λ _. Unit {0}) (λ r. r.shop_id ≡ k → IsChecked r)
  Outcome-IsKept = record {
    free = λ sub p free. tt;
    releases = λ sub row free p c own q same. (
      still row _ (refl, refl) (q same).0,
      Outcome-as row (without_override row) (released_dates row) (q same).1,
    );
    cancels = λ sub row free p c own q same.
        let (a, o) = p (sym own ∙ same) in
        (
          record { renewal = (q same).0.renewal; ending = λ no'. cc },
          Outcome.ends (ended sub o c.0) (a.ending c.1) refl,
        );
    expires = λ sub row free p c own q same.
        let (a, o) = p (sym own ∙ same) in
        (
          still row _ (refl, refl) (q same).0,
          Outcome.expires (ended sub o c.0) (sym a.renewal ∙ c.1) refl,
        );
    renews = λ r sub row free p c own q same.
        let (over, on) = renewing sub (p (sym own ∙ same)) c in
        (still row _ (refl, refl) (q same).0, Outcome.renews over on refl);
    pays = λ r sub row free p c own q same.
        let (over, on) = renewing sub (p (sym own ∙ same)) c in
        (still row _ (refl, refl) (q same).0, Outcome.renews over on refl);
    waits = λ r sub row free p c own q same.
        let (over, on) = renewing sub (p (sym own ∙ same)) c in
        (still row _ (refl, refl) (q same).0, Outcome.waits over on refl refl);
    recovers = λ i sub row free p c own q same.
        (still row _ (refl, refl) (q same).0, recovered sub row i (p (sym own ∙ same)).1 c);
    lapses = λ sub row free p c own q same. (
      still row _ (refl, refl) (q same).0,
      Outcome.lapses (lapsed sub (p (sym own ∙ same)).1 c.0 c.1) refl refl,
    );
    suspends = λ sub row free p c own q same. (
      still row _ (refl, refl) (q same).0,
      Outcome.suspends (stopped sub (p (sym own ∙ same)).1 c.0 c.1) refl,
    );
    reminds = λ key sub row free p c own q same. (
      still row _ (refl, refl) (q same).0,
      Outcome-as row (with_sent sub key row) (reminded_dates sub row key) (q same).1,
    );
  }

-- Where every shop has one subscription at most, a run of the periodic check leaves the status and the
-- dates of a shop's subscription as they are, or it does one of these, and only where the dates call for
-- it. A trial or an active period that is over ends as cancelled, only if that was asked for; expires, only
-- if it is not to renew; or, only if it is, is renewed or waits for its payment until as many days from now
-- as the settings give. A payment that waits arrives, and the period then ends later than now; it becomes
-- overdue, from now on, once the grace period is over, or at once where the settings give no days of grace.
-- An overdue one leads to suspension once the settings' days have passed since it is overdue, or at once
-- where the settings give none.
pub run_all-Outcome :
    (gateways : Gateways) (now : ℕ) (db : Store) (k : ℕ) (s : Subscription)
    → UniqueKeys shop_key db.subscriptions
    → find_subscription k db ≡ some s
    → (s' : Subscription) × (find_subscription k (run_all gateways now db).1 ≡ some s')
      × Outcome db.settings now s s'
run_all-Outcome gateways now db k s unique before =
    let start : IsChecked db.settings now k s s =
      (record { renewal = refl; ending = λ c. c }, Outcome.stays (same_dates s)) in
    let (s', found, (asked', outcome)) =
      Rows-found (IsChecked db.settings now k s) (run_all gateways now db).1 k (
        run_all-Rows_from gateways db (Outcome-IsKept db.settings now k s)
          (Rows-only (IsChecked db.settings now k s) db k s before start unique)) in
    (s', found, outcome)
