-- ===== src/Planning.antt =====
-- The planning layer: `crates/planning`.
pub mod LocalTime
