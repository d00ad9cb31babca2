-- ===== src/Pricing.antt =====
-- printsetu-backend/src/pricing/pricing.service.ts: a shop's rates and quantity tiers. A changed rate
-- or tier is a new row; the old one is only switched off.
pub mod Tiers
pub mod Service
pub mod Disjoint
pub mod Resolve
pub mod Answers
pub mod Versions
pub mod Requests
mod Tests
