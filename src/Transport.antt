-- ===== src/Transport.antt =====
-- core/transport: encrypted messages between two devices over a TCP connection.
pub mod Tcp
pub mod Secure
pub mod Examples
