-- ===== src/Scheduler.antt =====
-- internal/scheduler/scheduler.go, internal/store/scheduler_store.go and
-- internal/service/scheduler_service.go: the periodic tasks and their overrides.
pub mod Tasks
pub mod Runtime
pub mod Service
pub mod Effective
pub mod Entries
pub mod Restart
pub mod Update
