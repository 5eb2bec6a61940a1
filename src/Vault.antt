-- ===== src/Vault.antt =====
-- core/vault: the session of the encrypted vault.
pub mod Keyfile
pub mod Session
pub mod Export
pub mod Gate
pub mod Locked
pub mod Examples
