-- ===== src/Request/Rules.antt =====
-- When each step of a request is allowed and what it leaves.
pub mod Execution
pub mod Approvals
pub mod Estimates
pub mod Residents
pub mod Progress
