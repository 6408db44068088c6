-- ===== src/Execution.antt =====
-- The package internal/execution: the consumer, what it makes of a failure, and the handler that
-- executes one order.
pub mod Failure
pub mod Handler
pub mod Headers
pub mod Consumer
pub mod Topology
