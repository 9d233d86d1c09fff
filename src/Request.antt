-- ===== src/Request.antt =====
-- Maintenance requests: src/modules/maintenance-requests.
pub mod Types
pub mod Policy
pub mod Outcome
pub mod Steps
pub mod Rows
pub mod World
pub mod Callers
pub mod Service
pub mod Moves
pub mod Effects
pub mod Operations
pub mod Runs
pub mod Rules
pub mod Examples
pub mod Tests
