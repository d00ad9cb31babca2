-- ===== src/Print/Jobs.antt =====
-- printsetu-backend/src/print/print-jobs.service.ts, `PrintJobsService`.
pub mod Trigger
pub mod Reason
pub mod Report
pub mod Confirm
pub mod Clear
pub mod Invariant
pub mod Outcome
pub mod Listings
pub mod Waiting
pub mod Editing
pub mod Changes
pub mod Amounts
pub mod Creation
