-- ===== src/Gateway.antt =====
-- The API gateway (packages/api-gateway/src/middleware).
pub mod Breaker
pub mod Tests
