-- ===== src/Devices/Maps/Battery.antt =====
-- `crates/devices/src/maps.rs`: the registers of a site battery.
use grid_edge_gateway.Prelude.{ℕ}

abbrev pub status : ℕ
status = 0

abbrev pub setpoint : ℕ
setpoint = 1

abbrev pub power : ℕ
power = 2

abbrev pub soc : ℕ
soc = 3

abbrev pub watchdog_s : ℕ
watchdog_s = 7

abbrev pub len : ℕ
len = 8

abbrev pub status_charging : ℕ
status_charging = 1

abbrev pub status_discharging : ℕ
status_discharging = 2

abbrev pub status_watchdog : ℕ
status_watchdog = 3
