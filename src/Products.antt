-- ===== src/Products.antt =====
-- The product service (packages/product-service/src).
pub mod Saga
pub mod Offers
pub mod Tests
