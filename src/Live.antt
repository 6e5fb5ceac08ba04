-- ===== src/Live.antt =====
-- Live telemetry outside React (frontend/src/lib/live-buffer.ts).
pub mod Maps
pub mod Buffer
pub mod Window
pub mod Telemetry
mod Tests
