-- ===== src/Subscriptions/Cancellation.antt =====
-- A subscription that is cancelled at once, and not at the end of its period.
use printsetu.Base.{
  ℕ, true, false, ok, err, some, [], ◌≡◌, refl, find_many, count_zero_find_many,
  count-update_many_none, find_first-holds, find_first-update_many, by, arith, ◌>>=◌, branch,
  transaction,
}
use printsetu.Billing.Invoices.{Invoice, is_payable, is_unpaid_of, voided}
use printsetu.Subscriptions.Store.{
  Subscription, SubscriptionError, Store, shop_key, find_subscription, updated, update,
}
use printsetu.Subscriptions.Statuses.{is_cancelled}
use printsetu.Subscriptions.Records.{notify, noticed, record_event, recorded, load}
use printsetu.Subscriptions.Manage.{
  CancelDto, with_cancellation, ends_later, void_invoices, cancel_rows, cancel, resume,
}
use printsetu.Subscriptions.Access.{access_by_status, describe}

voided-unpaid : (shop : ℕ) (i : Invoice) → is_unpaid_of shop (voided i) ≡ false
unfolding is_payable
voided-unpaid shop i = ground arith

-- Where the row of a shop is cancelled, it is not cancelled again and there is nothing to undo.
module _ (shop : ℕ) (db : Store) (r : Subscription)
    (found : find_subscription shop db ≡ some r) where
  cancelled-stays :
      (now : ℕ) (dto : CancelDto) (actor : ℕ)
      → is_cancelled r.status ≡ true
      → (cancel now shop dto actor db).0 ≡ err SubscriptionError.already_cancelled
  unfolding cancel load ◌>>=◌
  cancelled-stays now dto actor ended = rw (found, ended) refl

  resume-none :
      (actor : ℕ)
      → r.cancel_at_period_end ≡ false
      → (resume shop actor db).0 ≡ err SubscriptionError.not_scheduled_to_end
  unfolding resume load ◌>>=◌
  resume-none actor due = rw (found, due) refl

module _ (now shop : ℕ) (dto : CancelDto) (actor : ℕ) (db : Store) (s : Subscription)
    (found : find_subscription shop db ≡ some s) (running : is_cancelled s.status ≡ false)
    (at_once : ends_later dto s ≡ false) where
  cancelled-found :
      find_subscription shop (updated shop (with_cancellation now dto.reason) db)
      ≡ some (with_cancellation now dto.reason s)
  cancelled-found = ground (
    arith,
    find_first-holds (by shop_key shop) db.subscriptions s found,
    find_first-update_many shop_key (by shop_key shop) (with_cancellation now dto.reason) shop
        db.subscriptions (λ r. refl),
  )

  cancel-result : (cancel now shop dto actor db).0 ≡ ok (with_cancellation now dto.reason s)
  unfolding cancel cancel_rows void_invoices load transaction branch update notify noticed
      record_event recorded ◌>>=◌
  cancel-result = rw (found, running, at_once, cancelled-found) refl

  cancel-found :
      find_subscription shop (cancel now shop dto actor db).1
      ≡ some (with_cancellation now dto.reason s)
  unfolding cancel cancel_rows void_invoices load transaction branch update notify noticed
      record_event recorded ◌>>=◌
  cancel-found = rw (found, running, at_once, cancelled-found) cancelled-found

  cancel-unpaid :
      find_many (is_unpaid_of shop) (cancel now shop dto actor db).1.ledger.invoices ≡ []
  unfolding cancel cancel_rows void_invoices load transaction branch update notify noticed
      record_event recorded ◌>>=◌
  cancel-unpaid =
      rw (found, running, at_once, cancelled-found)
        (count_zero_find_many (is_unpaid_of shop) _ (
          count-update_many_none (is_unpaid_of shop) (is_unpaid_of shop) voided db.ledger.invoices
            (λ i no. no) (voided-unpaid shop)))

-- Cancelling a subscription at once, where it is not cancelled and not to end with its period, answers
-- with the cancelled row and leaves the shop no invoice that can be paid; from then on, and at any later
-- time, customers cannot order, a second cancellation is refused and so is undoing the cancellation.
pub cancel_lem :
    (now shop : ℕ) (dto : CancelDto) (actor : ℕ) (db : Store) (s : Subscription) (later : ℕ)
    (dto' : CancelDto) (actor' : ℕ)
    → find_subscription shop db ≡ some s
    → is_cancelled s.status ≡ false
    → ends_later dto s ≡ false
    → let after = (cancel now shop dto actor db).1 in
      ((cancel now shop dto actor db).0 ≡ ok (with_cancellation now dto.reason s))
      × (find_many (is_unpaid_of shop) after.ledger.invoices ≡ [])
      × ((describe later (find_subscription shop after)).accepts_orders ≡ false)
      × ((cancel later shop dto' actor' after).0 ≡ err SubscriptionError.already_cancelled)
      × ((resume shop actor' after).0 ≡ err SubscriptionError.not_scheduled_to_end)
unfolding describe access_by_status
cancel_lem now shop dto actor db s later dto' actor' found running at_once =
    let r = with_cancellation now dto.reason s in
    let after = (cancel now shop dto actor db).1 in
    let e = cancel-found now shop dto actor db s found running at_once in
    (
      cancel-result now shop dto actor db s found running at_once,
      cancel-unpaid now shop dto actor db s found running at_once,
      rw e refl,
      cancelled-stays shop after r e later dto' actor' refl,
      resume-none shop after r e actor' refl,
    )
