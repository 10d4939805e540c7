-- ===== src/Operation.antt =====
-- internal/operation: asynchronous operations, their steps and their durable states.
pub mod State
pub mod Aggregate
pub mod Cell
pub mod Validate
pub mod Page
pub mod Run
pub mod Control
pub mod Moves
