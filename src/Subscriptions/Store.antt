-- ===== src/Subscriptions/Store.antt =====
-- The tables of printsetu-backend/prisma/schema.prisma that the subscription services read and write,
-- with one row for each subscription, and the exceptions that these services throw. Messages, and the
-- texts that an event keeps for people, are left out.
use printsetu.Base.{
  ℕ, Bool, Option, List, Result, ok, err, Action, by, find_first, update_many, modify,
}
use printsetu.Print.Types.{Text}
use printsetu.Billing.Cycles.{BillingCycle, Plan}
use printsetu.Billing.Invoices
use printsetu.Billing.Invoices.{Ledger, BillingError}

pub data SubscriptionStatus : Type 0 where
  trial active payment_pending past_due expired cancelled suspended : SubscriptionStatus

pub data BillingChannel : Type 0 where
  in_app email sms whatsapp : BillingChannel

-- Keys of reminders: what they are about, and the instant.
pub data ReminderKey : Type 0 where
  renewal_key trial_key grace_key final_key : ℕ → ReminderKey

pub record Subscription : Type 0 where
  pub shop_id : ℕ
  pub plan_id : ℕ
  pub cycle : BillingCycle
  pub status : SubscriptionStatus
  pub start_date : ℕ
  pub current_period_start : ℕ
  pub current_period_end : ℕ
  pub trial_ends_at : Option ℕ
  pub grace_ends_at : Option ℕ
  pub past_due_since : Option ℕ
  pub auto_renew : Bool
  pub gateway : ℕ
  pub cancel_at_period_end : Bool
  pub cancelled_at : Option ℕ
  pub cancel_reason : Option Text
  pub pending_plan_id : Option ℕ
  pub pending_cycle : Option BillingCycle
  pub automation_paused : Bool
  pub paused_until : Option ℕ
  pub notification_channels : Option (List BillingChannel)
  pub reminders_sent : List ReminderKey

pub data UpgradeTiming : Type 0 where
  immediate_prorated next_cycle : UpgradeTiming

pub data DowngradeTiming : Type 0 where
  end_of_cycle immediate : DowngradeTiming

pub record BillingSettings : Type 0 where
  pub grace_days : ℕ
  pub suspend_after_past_due_days : ℕ
  pub retry_attempts : ℕ
  pub retry_interval_days : ℕ
  pub renewal_reminder_days : ℕ
  pub default_channels : List BillingChannel
  pub upgrade_timing : UpgradeTiming
  pub downgrade_timing : DowngradeTiming

pub data EventType : Type 0 where
  trial_started subscription_created plan_changed plan_change_scheduled : EventType
  plan_change_cancelled extended grace_extended cancel_scheduled cancelled cancel_undone : EventType
  marked_paid refunded force_suspended force_reactivated override_released : EventType
  override_expired preferences_changed suspended expired renewed payment_failed : EventType
  payment_received payment_retry_failed past_due reminder_sent : EventType

pub record SubscriptionEvent : Type 0 where
  pub shop_id : ℕ
  pub kind : EventType
  pub actor : Option ℕ

pub data BillingEvent : Type 0 where
  cancelled reactivated paid suspended past_due payment_failed : BillingEvent
  renewal_reminder trial_ending grace_reminder final_warning : BillingEvent

pub record Notice : Type 0 where
  pub shop_id : ℕ
  pub event : BillingEvent
  pub channel : BillingChannel
  pub destination : Option Text
  pub delivered : Bool

pub record Shop : Type 0 where
  pub id : ℕ
  pub email : Text
  pub mobile : Text

-- The number that the next invoice gets stands for the sequence of the database.
pub record Store : Type 0 where
  pub shops : List Shop
  pub plans : List Plan
  pub subscriptions : List Subscription
  pub ledger : Ledger
  pub next_invoice : ℕ
  pub settings : BillingSettings
  pub events : List SubscriptionEvent
  pub audit : List SubscriptionEvent
  pub notices : List Notice
  pub running : Bool

pub data SubscriptionError : Type 0 where
  billing : BillingError → SubscriptionError
  not_subscribed shop_not_found already_subscribed duplicate_shop plan_not_found plan_retired :
      SubscriptionError
  same_plan not_changeable no_scheduled_change not_extendable not_in_grace : SubscriptionError
  already_cancelled not_scheduled_to_end no_unpaid_invoice no_override : SubscriptionError
  shop_unavailable shop_closed orders_paused daily_limit monthly_limit : SubscriptionError
  prints_paused feature_unavailable printer_limit : SubscriptionError

abbrev pub Method : Type 0 → Type 0
Method = Action SubscriptionError Store

abbrev pub shop_key : Subscription → ℕ
shop_key s = s.shop_id

abbrev pub plan_key : Plan → ℕ
plan_key p = p.id

abbrev pub find_subscription : ℕ → Store → Option Subscription
find_subscription shop db = find_first (by shop_key shop) db.subscriptions

abbrev pub find_plan : ℕ → Store → Option Plan
find_plan k db = find_first (by plan_key k) db.plans

abbrev pub find_shop : ℕ → Store → Option Shop
find_shop k db = find_first (by (λ (s : Shop). s.id) k) db.shops

-- `shopSubscription.update`
abbrev pub updated : ℕ → (Subscription → Subscription) → Store → Store
updated shop f db = record db { subscriptions = update_many (by shop_key shop) f db.subscriptions }

unfoldable pub update : ℕ → (Subscription → Subscription) → Method (Unit {0})
update shop f = modify (updated shop f)

abbrev pub lifted :
    {A : Type 0} → Store → Result BillingError A × Ledger → Result SubscriptionError A × Store
lifted db (ok a, l) = (ok a, record db { ledger = l })
lifted db (err e, l) = (err (SubscriptionError.billing e), record db { ledger = l })

-- A call of the invoices' service.
unfoldable pub on_ledger : {A : Type 0} → Invoices.Method A → Method A
on_ledger m db = lifted db (m db.ledger)
