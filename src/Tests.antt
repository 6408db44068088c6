-- ===== src/Tests.antt =====
-- The theorems at concrete inputs, with test data in the module Data.
pub mod Data
pub mod Store
pub mod Consumer
pub mod Broker
pub mod Api
pub mod Paging
pub mod System
pub mod Transactions
pub mod Process
pub mod Server
pub mod Messages
pub mod Wire
pub mod Traces
pub mod Goroutines
pub mod Bodies
pub mod OutOfRange
