-- ===== src/Orders.antt =====
-- The order service (packages/order-service/src).
pub mod Model
pub mod Events
pub mod Store
pub mod Transitions
pub mod Flags
pub mod Saga
pub mod Closing
pub mod Handover
pub mod Disputes
pub mod Rulings
pub mod Issues
pub mod Payments
pub mod Create
pub mod Views
pub mod Machine
pub mod Lifecycle
pub mod Meetings
pub mod Accounts
pub mod Guards
pub mod Tests
