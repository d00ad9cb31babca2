-- ===== src/Print.antt =====
-- The print pipeline of the backend, printsetu-backend/src/print: the orders and their state machine.
pub mod Types
pub mod StateMachine
pub mod Db
pub mod Repository
pub mod History
pub mod Jobs
pub mod Quote
pub mod Retention
pub mod Requests
mod Samples
mod Tests
