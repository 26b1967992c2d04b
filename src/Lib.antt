-- ===== src/Lib.antt =====
-- Verification of the grid edge gateway: a controller at the grid connection of a site, which takes
-- the network operator's commands over IEC 60870-5-104 and shares them out among the site's devices.
--
-- The crate `crates/iec104` is the link to the operator's control centre, as a controlled station.
--   Iec104/Apci.antt        crates/iec104/src/apci.rs, lib.rs: the frames (APDUs), `Apdu::encode`,
--                           `Apdu::parse`, `seq_distance`
--   Iec104/Time.antt        crates/iec104/src/time.rs: CP56Time2a tags, the civil calendar
--   Iec104/Element.antt     crates/iec104/src/asdu.rs: causes, qualities and information elements
--   Iec104/Asdu.antt        crates/iec104/src/asdu.rs: objects, ASDUs, `Asdu::encode`, `Asdu::decode`
--   Iec104/Session.antt     crates/iec104/src/session.rs: the session as a record of its fields, one
--                           function for each of its calls (`on_apdu`, `on_tick`, `send_raw`, `drain`)
--   Iec104/Connection.antt  crates/iec104/src/connection.rs: `parse_all` and the reading of a chunk
-- The files in the folder of each of these hold its proofs, and are named for what they prove;
-- Prelude holds the shared types, tests, lists, integers and results, and Tests the concrete inputs.
--
-- How they interact: the driver parses the bytes of the stream into APDUs and gives each to the
-- session; the session decodes the ASDU of an I-frame, numbers, acknowledges and retransmits nothing,
-- and leaves what is to be sent and reported in its outputs, which the driver drains.
--
-- How the code is modelled:
--   - Octets and machine words are natural numbers, with the wrap-around of the source written out. A
--     32-bit float is its bit pattern, since the code only moves and compares it. The
--     instants of a session are nanoseconds, all other times milliseconds or seconds.
--   - A call that may fail gives a Result, which is `ok`, `err` with the source's error, or `panic`
--     where an index of the source is out of bounds. A session call that closes the connection gives
--     the reason and the session as it is then.
--   - `Vec` and `VecDeque` are lists. A `&mut self` is a session taken and returned.
--   - The loop of `flush` runs on the length of the queue as its fuel, for each round takes one ASDU;
--     the loop of `parse_all` on one more than the bytes in the buffer, for each round takes at least
--     six.
--   - The clock of the driver is a parameter: the time at which it handles its n-th frame. The tap,
--     the stream and the channels are outside the model.
--   - The debug assertions of the encoders are not compiled into a release build and are left out.
--
-- The station of `crates/gateway/src/dso.rs` answers the ASDUs that the session receives.
--   Gateway/Points.antt     `measurements`, `single_points`, the fields of `snapshot.rs` that they read,
--                           and `DsoCommands` of crates/control/src/controller.rs
--   Gateway/Dso.antt        `Station::handle`, `command`, `interrogation_response` and `spontaneous`
-- The range check of the feed-in limit is written out on the bits of the `f32`.
--
-- The crate `crates/control` decides once a cycle what the devices of the site do.
--   Control/Rules.antt      crates/control/src/rules.rs: the numbers of the countries' rules
--   Control/Policy.antt     crates/control/src/policy.rs: the policy of a country and its validation
--   Control/Accounting.antt crates/control/src/accounting.rs: the minutes and energies of day and year
--   Control/Site.antt       crates/control/src/controller.rs: configuration, inputs, outputs, `validate`
--   Control/Controller.antt the same file: the controller's state, its setters, and the parts of `step`
--                           up to the limit for the inverters
--   Control/Inverters.antt, Control/Battery.antt, Control/Allocate.antt
--                           the same file: inverters that ignore their limit, `plan_batteries`,
--                           `allocate`
--   Control/Step.antt       the same file: `Controller::step` as a whole
--   Control/Compliance.antt crates/control/src/compliance.rs: the recorder of dimming events
--   Control/Report.antt     the same file: a report, its CSV text and `verify_csv`
-- The controller reads the operator's commands and the measurements of a cycle and gives setpoints and
-- a status; at the end of the cycle it gives the recorder a sample, and the recorder gives a report
-- when a dimming has ended.
--   Gateway/Inputs.antt     crates/gateway/src/inputs.rs: the contact of the control box and the EEBUS
--                           bridge, which join the operator's commands
--   Gateway/Reports.antt    crates/gateway/src/reports.rs, and `file_name` of compliance.rs: the
--                           reports on disk, and where their chain goes on after a restart
--
--   Gateway/Field.antt      crates/gateway/src/field.rs: `discover`, the slots, and what the tasks of
--                           chargers, heat pumps and batteries read from registers and write there
--   Gateway/Readings.antt   crates/gateway/src/readings.rs: `collect`, which gives the controller the
--                           readings that are not too old, and the views of snapshot.rs
--   Gateway/Market.antt     crates/gateway/src/market.rs: `merge_finest`, and `PriceBook`
--
-- The crate `crates/devices` says how the devices' registers are laid out.
--   Devices/Sunspec.antt    crates/devices/src/sunspec.rs: `build_image`, `locate_models`, and texts.
--                           The walk over the registers runs on one round more than there are
--                           registers, for each round goes on by two or more; the one over the bus
--                           runs on 33 rounds, for it stops at more than 32 models.
--   Devices/Maps.antt       crates/devices/src/maps.rs: the registers that the field bus uses
--
-- What the code does with an `f64` is a record of operations, `Doubles` of Prelude/Doubles.antt, that
-- the definitions take as an instance; `max`, `min` and `clamp` are written over them as Rust documents
-- them. `IsIeee` states what IEEE 754 promises of the order and of sums. SHA-256, the printing of
-- numbers and the parser of the bridge's lines are parameters, too (`Printing`). The loop of `allocate`
-- that shares out what is left runs on the number of active chargers, the amperes that are spare and
-- one more as its fuel, for each of its rounds closes a charger or spends an ampere where the
-- configuration has been validated.
--
-- The crate `crates/planning` prepares the inputs of the planner. Its local time:
--   Planning/LocalTime.antt crates/planning/src/localtime.rs: Central European time, in whole seconds.
--
-- Not modelled: the select loops of `connection::run`, `Station::serve` and the inputs, with their
-- channels and sockets (tokio), `describe.rs` (text for a log), the errors of the file system, the
-- tasks of inverters and meters (their scale factors are powers of ten by `powi`), the planner, the rest of the crate `planning`, the device simulators, the other services of the gateway,
-- and the programs in Go, Python and JavaScript. The panic of `allocate` at a plan for a charger
-- without a reading is not modelled: the readings of the field bus have one for every charger.
pub mod Prelude
pub mod Iec104
pub mod Gateway
pub mod Planning
pub mod Control
pub mod Devices
pub mod Tests
