-- ===== src/Orders/Guards.antt =====
-- What the guards of the handlers let through (order.service.js and payment.controller.js of
-- packages/order-service/src).
pub mod Status
pub mod Money
