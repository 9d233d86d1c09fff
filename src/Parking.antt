-- ===== src/Parking.antt =====
-- Parking: src/modules/parking.
pub mod Types
pub mod World
pub mod Slots
pub mod Allocating
pub mod Ending
pub mod Vehicles
pub mod Lists
pub mod Import
pub mod Operations
pub mod Board
pub mod Sound
pub mod Refinement
pub mod Answers
mod Tests
