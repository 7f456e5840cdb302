-- ===== src/Products/Offers.antt =====
-- The offers of buyers (packages/product-service/src/controllers/offer.controller.js).
pub mod Document
pub mod Handlers
pub mod Reads
pub mod Kept
pub mod Steps
pub mod Final
pub mod Waiting
pub mod Fewer
pub mod Single
pub mod Accepted
mod Tests
