-- ===== src/Devices.antt =====
-- The devices on the field bus: `crates/devices`.
pub mod Sunspec
pub mod Maps
