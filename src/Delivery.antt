-- ===== src/Delivery.antt =====
-- Delivery tasks: src/infra/queue/delivery-tasks.repo.ts, on the table of the database, `processTask`
-- of src/modules/auth/auth-password-delivery.service.ts, and the cleanup of old tasks. The sending of
-- the e-mail is a parameter: a call is given what came of it.
pub mod Tasks
pub mod Passwords
pub mod Rows
pub mod Attempts
pub mod Claims
pub mod Cleanup
mod Tests
