-- ===== src/Tests.antt =====
-- Concrete inputs for the theorems of the IEC 104 stack, the station, the
-- controller, the devices and local time.
pub mod Numbers
pub mod Wire
pub mod Link
pub mod Control
pub mod Clock
pub mod Site
pub mod Contact
pub mod Devices
pub mod Market
