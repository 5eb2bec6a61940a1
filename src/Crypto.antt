-- ===== src/Crypto.antt =====
-- core/crypto: session keys, the encrypted channel, and the replay cache of the handshake.
pub mod Kdf
pub mod Channel
pub mod Nonces
pub mod Handshake
mod Examples
