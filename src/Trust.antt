-- ===== src/Trust.antt =====
-- core/trust/: the store of devices that this one knows, by device id.
pub mod Store
pub mod Rotation
mod Examples
