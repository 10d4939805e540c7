-- ===== src/Idempotency.antt =====
-- internal/idempotency: the durable records of requests and who may execute them.
pub mod Store
pub mod Claim
pub mod Finish
pub mod Replay
pub mod Exclusion
pub mod Settled
pub mod Examples
