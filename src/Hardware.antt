-- ===== src/Hardware.antt =====
-- The wiring of a device for the generic firmware (frontend/src/lib/hardware).
pub mod Chips
pub mod Pins
pub mod Catalog
pub mod Draft
pub mod Moving
pub mod Saving
pub mod Checks
pub mod Blob
mod Tests
