-- ===== src/Billing.antt =====
-- printsetu-backend/src/subscriptions: what a shop pays for the service.
pub mod Invoices
pub mod Cycles
pub mod Calendar
pub mod Accounts
pub mod Creation
pub mod Payments
pub mod Refunds
pub mod Requests
mod Tests
