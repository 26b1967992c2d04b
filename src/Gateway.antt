-- ===== src/Gateway.antt =====
-- The gateway service: `crates/gateway`.
pub mod Points
pub mod Dso
pub mod Inputs
pub mod Reports
pub mod Field
pub mod Readings
pub mod Market
