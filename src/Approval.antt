-- ===== src/Approval.antt =====
-- internal/approval: the actions that wait for a human's decision.
pub mod Store
pub mod Once
pub mod Fresh
pub mod Right
pub mod Stamps
pub mod Answers
pub mod Examples
