-- ===== src/Devices/Maps/Evse.antt =====
-- `crates/devices/src/maps.rs`: the registers of a charger.
use grid_edge_gateway.Prelude.{ℕ}

abbrev pub status : ℕ
status = 0

abbrev pub current_limit : ℕ
current_limit = 1

abbrev pub current : ℕ
current = 2

abbrev pub power : ℕ
power = 3

abbrev pub session_energy : ℕ
session_energy = 5

abbrev pub failsafe_current : ℕ
failsafe_current = 8

abbrev pub failsafe_timeout : ℕ
failsafe_timeout = 9

abbrev pub energy_request : ℕ
energy_request = 11

abbrev pub departure_min : ℕ
departure_min = 13

abbrev pub car_max_current : ℕ
car_max_current = 14

abbrev pub len : ℕ
len = 15

abbrev pub no_departure : ℕ
no_departure = 65535

abbrev pub status_available : ℕ
status_available = 0

abbrev pub status_connected : ℕ
status_connected = 1

abbrev pub status_charging : ℕ
status_charging = 2

abbrev pub status_failsafe : ℕ
status_failsafe = 3

abbrev pub status_finished : ℕ
status_finished = 4
