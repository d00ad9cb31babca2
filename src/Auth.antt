-- ===== src/Auth.antt =====
-- printsetu-backend/src/auth: codes that prove who owns an email address.
pub mod EmailOtp
pub mod Codes
pub mod Guesses
mod Tests
