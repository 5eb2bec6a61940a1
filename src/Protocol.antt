-- ===== src/Protocol.antt =====
-- core/protocol: what goes over the wire.
pub mod Bytes
pub mod Hex
pub mod Frame
pub mod Binary
pub mod Errors
pub mod Values
pub mod ErrorMessages
pub mod Schema
pub mod Messages
pub mod Examples
