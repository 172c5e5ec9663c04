-- ===== src/InstanceStore.antt =====
-- internal/store/instance_store.go: the methods of `InstanceStore`.
pub mod Rows
pub mod Defs
pub mod Ports
pub mod Fresh
pub mod Assigned
pub mod Written
pub mod Rewritten
pub mod Backfill
