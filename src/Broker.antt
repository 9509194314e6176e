-- ===== src/Broker.antt =====
-- services/mqtt_brokerage/ and services/capabilities.rs: what is done for the broker beside its
-- process: its certificates, the identities of devices, its password file and its registration.
pub mod Identities
pub mod Interfaces
pub mod Capabilities
