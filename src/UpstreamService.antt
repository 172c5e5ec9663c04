-- ===== src/UpstreamService.antt =====
-- internal/service/upstream_service.go: the operations on upstreams and their health checks.
pub mod Defs
pub mod Rules
pub mod Valid
pub mod Changes
pub mod Health
pub mod Batch
pub mod Serve
pub mod Failover
pub mod Recovery
pub mod Added
