-- ===== src/Control.antt =====
-- The controller of the site: `crates/control`.
pub mod Rules
pub mod Policy
pub mod Accounting
pub mod Report
pub mod Compliance
pub mod Site
pub mod Battery
pub mod Controller
pub mod Allocate
pub mod Inverters
pub mod Step
