-- ===== src/Connectivity.antt =====
-- core/connectivity/: who may use this device as a relay.
pub mod Relay
mod Examples
