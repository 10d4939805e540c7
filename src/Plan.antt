-- ===== src/Plan.antt =====
-- internal/plan: the grants that let a plan's tasks run without a confirmation for each call.
pub mod Repository
pub mod Risk
pub mod Grant
pub mod Create
pub mod Authorize
pub mod Budget
pub mod Examples
