-- ===== src/Request/Steps.antt =====
-- The transactions of maintenance-requests.service.ts, each on the row that it has read.
pub mod Guards
pub mod Execution
pub mod Lifecycle
pub mod Approvals
pub mod Estimates
pub mod Residents
