-- ===== src/UpstreamNames.antt =====
-- The names of upstreams that are added in bulk, of internal/service/upstream_service.go.
pub mod Text
pub mod Defs
pub mod Bounds
pub mod Valid
