-- ===== src/UpstreamStore.antt =====
-- The checks of upstreams (internal/model/upstream.go) and their table (internal/store/upstream_store.go).
pub mod Validate
pub mod Rows
pub mod Defs
pub mod Valid
