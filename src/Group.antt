-- ===== src/Group.antt =====
-- core/group/: what the policies of managed groups allow.
pub mod Policy
mod Examples
