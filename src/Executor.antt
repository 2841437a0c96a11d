-- ===== src/Executor.antt =====
-- agent/order_walk.py: the executor that works one option order along its planned prices.
pub mod Types
pub mod Session
pub mod Reads
pub mod Orders
pub mod Walk
pub mod Triples
pub mod Quiet
pub mod Rules
pub mod Changes
pub mod Runner
mod Tests
