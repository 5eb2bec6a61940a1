-- ===== src/Transfer.antt =====
-- core/transfer/: the chunks that a sender reads, the receiver's session and its files.
pub mod Chunker
pub mod Paths
pub mod Disk
pub mod Partial
pub mod Session
mod Examples
