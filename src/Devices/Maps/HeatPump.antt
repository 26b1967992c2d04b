-- ===== src/Devices/Maps/HeatPump.antt =====
-- `crates/devices/src/maps.rs`: the registers of a heat pump.
use grid_edge_gateway.Prelude.{ℕ}

abbrev pub power_limit : ℕ
power_limit = 1

abbrev pub power : ℕ
power = 2

abbrev pub demand : ℕ
demand = 3

abbrev pub indoor : ℕ
indoor = 5

abbrev pub outdoor : ℕ
outdoor = 6

abbrev pub ext_power : ℕ
ext_power = 8

abbrev pub len : ℕ
len = 9

abbrev pub ext_none : ℕ
ext_none = 65535
