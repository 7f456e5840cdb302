-- ===== src/Karma.antt =====
-- The user service's karma (packages/user-service/src/services/karma*.js).
pub mod Policy
pub mod Service
pub mod Permissions
pub mod Ledger
pub mod Once
pub mod Tests
