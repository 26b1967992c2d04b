-- ===== src/Iec104.antt =====
-- The crate `crates/iec104`.
pub mod Apci
pub mod Time
pub mod Element
pub mod Asdu
pub mod Session
pub mod Connection
