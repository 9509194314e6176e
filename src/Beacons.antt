-- ===== src/Beacons.antt =====
-- The beacons: the registry of services/beacon_management/registry.rs and the message loop of
-- app.rs that drives it.
pub mod Types
pub mod Registry
pub mod MessageLoop
pub mod Examples
