-- ===== src/Order.antt =====
-- The package internal/order: the order, its event, its store and its HTTP handlers.
pub mod Model
pub mod Event
pub mod Wire
pub mod Publisher
pub mod Store
pub mod Query
pub mod Listing
pub mod Api
pub mod CreateOrder
pub mod ListOrders
pub mod PostgresStore
pub mod AmqpPublisher
