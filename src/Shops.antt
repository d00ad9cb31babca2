-- ===== src/Shops.antt =====
-- printsetu-backend/src/shops/shop-availability.ts: whether a shop takes orders now.
pub mod Availability
pub mod Switch
mod Tests
