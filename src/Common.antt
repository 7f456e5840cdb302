-- ===== src/Common.antt =====
-- The shared library (packages/common/src/utils/helpers.js).
pub mod Retry
pub mod Paging
mod Tests
