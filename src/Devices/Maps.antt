-- ===== src/Devices/Maps.antt =====
-- `crates/devices/src/maps.rs`: the registers of the devices without a SunSpec model.
pub mod Evse
pub mod HeatPump
pub mod Battery
use grid_edge_gateway.Prelude.{ℕ, ◌+◌, ◌*◌, List, Result, ok, ◌>>=◌, index}

-- The high word comes first.
abbrev pub regs_to_u32 : {E : Type 0} → List ℕ → Result E ℕ
regs_to_u32 r = do high ← index r 0; low ← index r 1; ok (high * 65536 + low)
