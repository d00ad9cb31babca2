-- ===== src/Lib.antt =====
-- Printsetu, a cloud print service: a customer uploads documents at a shop, is quoted a price,
-- confirms an order, and the shop's Printer App prints it. This library models the core of the
-- backend, printsetu-backend/src.
-- Print (files under Print/): the orders. Types and Db hold the enumerations, the tables of
-- prisma/schema.prisma and the exceptions; StateMachine and Repository are
-- print/print-job-state-machine.ts and print/print-jobs.repository.ts. Jobs is
-- print/print-jobs.service.ts: Jobs/Confirm (`confirmFromQuote`), Jobs/Trigger (`triggerPrint`,
-- `dispatchToAgent`), Jobs/Report (`reportAgentStatus`, `reconcile`), Jobs/Reason
-- (`agentFailureReason`), Jobs/Editing (`reorderItems`, `deleteItem`, `updateItemSettings` and the
-- prices that follow), Jobs/Clear (`clearHistory`), Jobs/Listings (`shopQueue`,
-- `getStatusForCustomer`). Quote is print/print-quote.service.ts, Retention is
-- retention/retention.service.ts, and Requests is any sequence of the requests of the controllers,
-- the queue's worker and the schedule. History holds the invariant of the orders.
-- Pricing (files under Pricing/): pricing/pricing.service.ts, its overlap test, and the requests
-- of pricing/shop-pricing.controller.ts.
-- Billing (files under Billing/): subscriptions/invoices.service.ts, the invoices of a shop, their
-- payment and their refunds, on a ledger of its own with amounts in whole hundredths; Cycles is
-- subscriptions/subscription.constants.ts, whose dates are those of the calendar from 1970 on, and
-- Calendar its laws.
-- Subscriptions (files under Subscriptions/): what a shop may do, and how that changes. Store
-- holds the tables, with the ledger of Billing inside; Records is
-- subscriptions/billing-notifier.service.ts and the helpers of
-- subscriptions/subscriptions.service.ts, whose methods are Assign (`assign`), ChangePlan
-- (`changePlan`, `cancelScheduledChange`), Manage (`extend`, `extendGrace`, `cancel`, `resume`),
-- Pay (`markPaid`, `refund`) and Overrides (`forceSuspend`, `forceReactivate`, `releaseOverride`,
-- `setPreferences`). Reminders, Gateways, Renewal, Collection and Automation are
-- subscriptions/billing-automation.service.ts, from its reminders to `runAll`. Access is
-- subscriptions/subscription-access.service.ts, which reads the orders of Print and the switch of
-- Shops. Checks says which writes of the periodic check must keep a predicate of the rows;
-- Lifecycle, which has the outcomes of a check in Outcomes, Overridden, Grace and Dates apply it;
-- Cancellation and PeriodEnd are about `cancel`, `resume` and the check of a subscription that is
-- to end. Requests is any sequence of the calls of the controllers and of the periodic check.
-- Auth (files under Auth/): auth/email-otp.service.ts, codes sent by email.
-- Shops (files under Shops/): shops/shop-availability.ts, whether a shop takes orders by its
-- switch and its opening hours. Its time zone is the parameter `Zone`, and one theorem takes the
-- hypothesis that a later reading of the local clock is a later instant.
-- Base holds what they share: tables, keys, and methods as state passing with exceptions as
-- values. A method reads and writes `Db`; what it wrote before an exception stays, unless it runs
-- in `$transaction`, which puts the state back. Tables are lists, oldest row first.
-- Base/Effects/Keeps, Yields, Reads, Gives and Carries have one rule for each way to build a
-- method: for invariants, for what holds once a method has returned, for methods that only read,
-- and for what a method answers or leads to.
-- Identifiers are numbers, instants are in milliseconds, money is in hundredths; where the source
-- divides prices in floating point, the model divides exactly and rounds once. A method reads the
-- clock once. Loops go over a list, or over the days of a week; only the search for the month of a
-- day (`month_from`) runs on fuel, one step for every 28 days and one more, which is enough
-- because no month is shorter. An invoice is named by its number, which a transaction that fails
-- gives back. A row that a foreign key refers to is looked up where it is read. The periodic check
-- of one shop after the other is one sequence of steps, so that its flag `running` is only ever
-- seen as it was left.
-- What is outside of the repository is in the records `Env`, `Storage`, `Zone`, `Clock` and
-- `PaymentGateway`, and in the hash of a code, without laws but for the local clock above: the
-- clock, drawn identifiers and codes, token signatures, live sockets, the object store, the
-- answers of a gateway and of the mail service, and the shop of a session. Print takes the answers
-- of the subscription from `Env` as well.
-- Not modelled: the other listings and reports, which only read, plans and revenue, messages and
-- other texts for people, file storage, rendering of documents, mail, sockets, authentication
-- against Keycloak, the Printer App, the frontend, and the document analysis.
pub mod Auth
pub mod Base
pub mod Billing
pub mod Pricing
pub mod Print
pub mod Shops
pub mod Subscriptions
