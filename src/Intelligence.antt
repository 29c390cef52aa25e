-- ===== src/Intelligence.antt =====
-- crates/nova-intelligence: workload reports, index recommendations and their life. The assistant and
-- the in-memory sink of telemetry events are not modelled.
pub mod Report
pub mod Analysis
pub mod Workload
pub mod Totals
pub mod Advisor
pub mod Advice
pub mod Lifecycle
pub mod Calls
pub mod Moves
