-- ===== src/Subscriptions/Records.antt =====
-- What the subscription services share: printsetu-backend/src/subscriptions/billing-notifier.service.ts,
-- and the helpers at the top of subscriptions.service.ts.
use printsetu.Base.{
  ℕ, suc, Bool, true, false, not, Option, none, some, List, [], ◌∷◌, ◌++◌, map, delete_many, pure,
  gets, modify, or_throw, throw_if, ◌>>=◌, ◌>>◌,
}
use printsetu.Print.Types.{Text}
use printsetu.Billing.Cycles.{Plan}
use printsetu.Billing.Invoices.{InvoiceInput, Invoice, create}
use printsetu.Subscriptions.Store.{
  BillingChannel, ReminderKey, Subscription, EventType, BillingEvent, Notice, Shop, Store,
  SubscriptionError, Method, find_subscription, find_plan, find_shop, on_ledger,
}

abbrev is_in_app : BillingChannel → Bool
is_in_app BillingChannel.in_app = true
is_in_app _ = false

abbrev same_channel : BillingChannel → BillingChannel → Bool
same_channel BillingChannel.in_app BillingChannel.in_app = true
same_channel BillingChannel.email BillingChannel.email = true
same_channel BillingChannel.sms BillingChannel.sms = true
same_channel BillingChannel.whatsapp BillingChannel.whatsapp = true
same_channel _ _ = false

-- `Array.from(new Set(...))`: the first of equal entries stays.
unfoldable pub distinct : List BillingChannel → List BillingChannel
distinct [] = []
distinct (c ∷ cs) = c ∷ delete_many (same_channel c) (distinct cs)

abbrev chosen_or : Option (List BillingChannel) → List BillingChannel → List BillingChannel
chosen_or none default' = default'
chosen_or (some []) default' = default'
chosen_or (some (c ∷ cs)) default' = c ∷ cs

-- `channelsFor`
unfoldable pub channels_for :
    Option (List BillingChannel) → List BillingChannel → List BillingChannel
channels_for chosen default' = distinct (BillingChannel.in_app ∷ chosen_or chosen default')

abbrev destination : Shop → BillingChannel → Option Text
destination s BillingChannel.in_app = none
destination s BillingChannel.email = some s.email
destination s _ = some s.mobile

abbrev notice : ℕ → BillingEvent → Shop → BillingChannel → Notice
notice shop event s c = record {
  shop_id = shop;
  event = event;
  channel = c;
  destination = destination s c;
  delivered = is_in_app c;
}

abbrev notices_for :
    ℕ → BillingEvent → Option (List BillingChannel) → Option Shop → Store → List Notice
notices_for shop event chosen none db = []
notices_for shop event chosen (some s) db =
    map (notice shop event s) (channels_for chosen db.settings.default_channels)

unfoldable pub noticed : ℕ → BillingEvent → Option (List BillingChannel) → Store → Store
noticed shop event chosen db = record db {
  notices = db.notices ++ notices_for shop event chosen (find_shop shop db) db;
}

-- `notify`, which never throws
unfoldable pub notify : ℕ → BillingEvent → Option (List BillingChannel) → Method (Unit {0})
notify shop event chosen = modify (noticed shop event chosen)

abbrev with_audit : ℕ → Option ℕ → EventType → Store → Store
with_audit shop none kind db = db
with_audit shop (some actor) kind db = record db {
  audit = db.audit ++ (record { shop_id = shop; kind = kind; actor = some actor } ∷ []);
}

abbrev with_event : ℕ → Option ℕ → EventType → Store → Store
with_event shop actor kind db = record db {
  events = db.events ++ (record { shop_id = shop; kind = kind; actor = actor } ∷ []);
}

unfoldable pub recorded : ℕ → Option ℕ → EventType → Store → Store
recorded shop actor kind db = with_audit shop actor kind (with_event shop actor kind db)

-- `record`: the shop's history, and the audit log for what a person does
unfoldable pub record_event : ℕ → Option ℕ → EventType → Method (Unit {0})
record_event shop actor kind = modify (recorded shop actor kind)

unfoldable pub load : ℕ → Method Subscription
load shop = do
  found ← gets (find_subscription shop)
  or_throw found SubscriptionError.not_subscribed

-- A plan of a row, which the foreign key keeps in the table.
unfoldable pub plan_of : ℕ → Method Plan
plan_of k = do found ← gets (find_plan k); or_throw found SubscriptionError.plan_not_found

-- `activePlan`
unfoldable pub active_plan : ℕ → Method Plan
active_plan k = do
  found ← gets (find_plan k)
  plan ← or_throw found SubscriptionError.plan_not_found
  throw_if (not plan.is_active) SubscriptionError.plan_retired
  pure plan

abbrev pub is_renewal_key : ReminderKey → Bool
is_renewal_key (ReminderKey.renewal_key t) = true
is_renewal_key (ReminderKey.trial_key t) = true
is_renewal_key _ = false

-- `clearRenewalReminders`
abbrev pub clear_renewal_reminders : Subscription → List ReminderKey
clear_renewal_reminders sub = delete_many is_renewal_key sub.reminders_sent

-- `invoices.create`, with the next number
unfoldable pub create_invoice : (ℕ → InvoiceInput) → Method Invoice
create_invoice input = do
  n ← gets (λ db. db.next_invoice)
  modify (λ db. record db { next_invoice = suc n })
  on_ledger (create (input n))
