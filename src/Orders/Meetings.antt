-- ===== src/Orders/Meetings.antt =====
-- The answers to meeting proposals (proposeHandover, respondHandover and createOrder of
-- packages/order-service/src/services/order.service.js): what reaches them.
pub mod Frame
pub mod Proposals
pub mod Invariant
