-- ===== src/ProxyLine.antt =====
-- The lines of a bulk check, as ParseProxyLine of internal/service/upstream_service.go reads
-- them.
pub mod Defs
pub mod Split
pub mod Forms
pub mod Accepted
pub mod Bracketed
