-- ===== src/Subscriptions/Orders.antt =====
-- Who may order, and what the subscription has to do with it.
use printsetu.Base.{ℕ, ◌<◌, true, none, some, Option, ok, ◌≡◌, ◌⊎◌, ◌↔◌, arith}
use printsetu.Billing.Cycles.{Plan}
use printsetu.Subscriptions.Store.{SubscriptionStatus, Subscription, find_subscription}
use printsetu.Subscriptions.Access.{
  World, PlanUsage, usage, describe, access_by_status, find_switch, ShopSwitch, switch_availability,
  limit_reached, plan_of_row, customer_refusal, assert_customer_can_order,
}

-- A shop that never had a subscription, or has one in trial, active or waiting for a payment.
abbrev pub IsServed : Option Subscription → Type 0
IsServed none = Unit {0}
IsServed (some s) =
    (s.status ≡ SubscriptionStatus.trial)
    ⊎ (s.status ≡ SubscriptionStatus.active)
    ⊎ (s.status ≡ SubscriptionStatus.payment_pending)

-- The switch and the opening hours, where the shop has settings for them, say that it is open.
abbrev pub IsOpen : World → Option ShopSwitch → Type 0
IsOpen w none = Unit {0}
IsOpen w (some s) = (switch_availability w s).online ≡ true

-- A limit that is missing or not used up.
abbrev pub IsBelow : ℕ → Option ℕ → Type 0
IsBelow n none = Unit {0}
IsBelow n (some limit) = n < limit

-- The orders of the day and of the month leave room for one more.
abbrev pub HasRoom : PlanUsage → Option Plan → Type 0
HasRoom used none = Unit {0}
HasRoom used (some p) =
    IsBelow used.tokens_today p.max_tokens_per_day
    × IsBelow used.prints_this_month p.max_prints_per_month

-- Customers can order from a shop exactly where its subscription, if it has one, is in trial, active or
-- waiting for a payment; its switch and opening hours, if it has them, say that it is open; and its plan's
-- limits of orders, for the day and for the month, are not used up.
pub assert_customer_can_order_lem :
    (w : World) (shop : ℕ)
    → (assert_customer_can_order w shop ≡ ok tt) ↔ (
        IsServed (find_subscription shop w.store)
        × IsOpen w (find_switch shop w)
        × HasRoom
            (usage w.clock shop w.print)
            (plan_of_row w.store (find_subscription shop w.store)))
unfolding assert_customer_can_order customer_refusal describe access_by_status limit_reached
assert_customer_can_order_lem w shop = ground arith
