-- ===== src/InstanceModel.antt =====
-- internal/model/instance.go: the checks of an instance.
pub mod Validate
pub mod Accepted
