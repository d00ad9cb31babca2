-- ===== src/Subscriptions.antt =====
-- printsetu-backend/src/subscriptions: what a shop may do, and how its subscription changes.
pub mod Store
pub mod Statuses
pub mod Records
pub mod Assign
pub mod ChangePlan
pub mod Manage
pub mod Pay
pub mod Overrides
pub mod Reminders
pub mod Gateways
pub mod Renewal
pub mod Collection
pub mod Automation
pub mod Rows
pub mod Checks
pub mod Access
pub mod Outcomes
pub mod Lifecycle
pub mod Overridden
pub mod Dates
pub mod Grace
pub mod Suspension
pub mod Cancellation
pub mod PeriodEnd
pub mod Requests
pub mod Ledgers
pub mod Orders
mod Tests
