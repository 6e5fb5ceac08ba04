-- ===== src/Schedule.antt =====
-- The schedule picker (frontend/src/lib/schedule.ts).
pub mod Fields
pub mod Sets
pub mod Allowed
pub mod Picker
pub mod Runs
pub mod Lines
pub mod Singles
pub mod Stars
pub mod Picking
pub mod Shown
pub mod RoundTrip
pub mod Words
pub mod Days
pub mod Wording
mod Tests
