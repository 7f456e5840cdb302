-- ===== src/Auth.antt =====
-- The accounts of the user service (packages/user-service/src/controllers/auth.controller.js).
pub mod Model
pub mod Table
pub mod Register
pub mod Otp
pub mod Login
pub mod Tokens
pub mod Passwords
mod Tests
